-- ===== src/Redirect/Links/Transparency.antt =====
-- The cache in front of the database changes no answer.
use posta.Shared.{
  sym, ◌≡◌, refl, ℕ, String, true, false, Option, none, some, str_eq, Bool-cases, inl, inr, Act,
  Outcome, ok, throw, stuck, pure, ◌>>◌,
}
use posta.Shared.Triples.{
  Triple, Triple-pure, Triple-bind, Triple-caught, Triple-try_catch, Triple-weaken,
}
use posta.Redirect.Handler.{CachedLink}
use posta.Redirect.Links.{
  LinkLookupResult, hit, miss, known_absent, link_tombstone, link_key, RedisReply, value, timed_out,
  LinkWarning, LinkDeps, parsed, read_reply, ask_redis, lookup_cached_link, write_backfill,
  backfill_text, backfill_link_cache, write_link_tombstone, start, after_select, after_lookup,
  resolve_link,
}

-- What Redis may hold under the key of a link: nothing, the tombstone of a link that the database does not have,
-- or a text that does not parse, or parses as the database's link.
pub record IsCoherent {W : Type 0} (deps : LinkDeps W) (stored : Option CachedLink) (raw : String)
    : Type 0 where
  pub absent : str_eq raw link_tombstone ≡ true → stored ≡ none
  pub present :
      (link : CachedLink)
      → str_eq raw link_tombstone ≡ false
      → deps.parse_cached_link raw ≡ some link
      → stored ≡ some link

abbrev pub IsCoherentReply : {W : Type 0} → LinkDeps W → Option CachedLink → RedisReply → Type 0
IsCoherentReply deps stored timed_out = Unit {0}
IsCoherentReply deps stored (value none) = Unit {0}
IsCoherentReply deps stored (value (some raw)) = IsCoherent deps stored raw

-- `stored` is what the database has for the link. Redis may fail at each call; where a read answers, the
-- answer is coherent. The logger does not throw.
pub record Backed {W : Type 0} (I : W → Type 0) (deps : LinkDeps W) (tenant slug : String)
    (stored : Option CachedLink) : Type 0 where
  pub reads :
      Triple I
        (deps.redis_get (link_key tenant slug))
        (λ r w. IsCoherentReply deps stored r × I w)
        I
  pub writes :
      (seconds : ℕ) (text : String)
      → Triple I (deps.redis_setex (link_key tenant slug) seconds text) (λ _. I) I
  pub selects : Triple I (deps.select_link tenant slug) (λ link w. (link ≡ stored) × I w) (λ _. ⊥)
  pub warns : (warning : LinkWarning) → Triple I (deps.warn warning) (λ _. I) (λ _. ⊥)
  pub stringifies : (link : CachedLink) → deps.stringify_link link ≡ stuck → ⊥

module _ {W : Type 0} {I : W → Type 0} (deps : LinkDeps W) (tenant slug : String)
    (stored : Option CachedLink) (backed : Backed I deps tenant slug stored) where
  -- A lookup answers with what the database has, or leaves it to the database.
  abbrev IsRight : LinkLookupResult → W → Type 0
  IsRight (hit link) w = (stored ≡ some link) × I w
  IsRight known_absent w = (stored ≡ none) × I w
  IsRight miss w = I w

  abbrev Answered : Option RedisReply → W → Type 0
  Answered none w = I w
  Answered (some r) w = IsCoherentReply deps stored r × I w

  ask_redis-Triple : Triple I (ask_redis deps tenant slug) Answered (λ _. ⊥)
  unfolding ask_redis
  ask_redis-Triple =
      Triple-try_catch _ _ (Triple-bind _ _ backed.reads λ r. Triple-pure (some r))
        (λ e. Triple-bind _ _ (backed.warns _) λ _. Triple-pure none)

  parsed-Triple :
      (raw : String) (o : Option CachedLink)
      → deps.parse_cached_link raw ≡ o
      → str_eq raw link_tombstone ≡ false
      → Triple (λ w. IsCoherent deps stored raw × I w) (parsed deps tenant slug o) IsRight (λ _. ⊥)
  parsed-Triple raw (some link) e f =
      Triple-weaken _ (Triple-pure (hit link)) (λ w (c, i). (c.present link f e, i)) (λ _ w p. p)
        (λ w n. n)
  parsed-Triple raw none e f =
      Triple-weaken _ (Triple-bind _ _ (backed.warns _) λ _. Triple-pure {Q = IsRight} miss)
        (λ w (c, i). i) (λ _ w p. p) (λ w n. n)

  read_reply-Triple :
      (r : RedisReply)
      → Triple
          (λ w. IsCoherentReply deps stored r × I w)
          (read_reply deps tenant slug r)
          IsRight
          (λ _. ⊥)
  read_reply-Triple timed_out =
      Triple-weaken _ (Triple-bind _ _ (backed.warns _) λ _. Triple-pure {Q = IsRight} miss)
        (λ w (c, i). i) (λ _ w p. p) (λ w n. n)
  read_reply-Triple (value none) =
      Triple-weaken _ (Triple-pure miss) (λ w (c, i). i) (λ _ w p. p) (λ w n. n)
  read_reply-Triple (value (some raw)) = elim (Bool-cases (str_eq raw link_tombstone)) [
    | inl e ↦ rw e (
        Triple-weaken _ (Triple-pure known_absent) (λ w (c, i). (c.absent e, i)) (λ _ w p. p)
          (λ w n. n))
    | inr e ↦ rw e (parsed-Triple raw (deps.parse_cached_link raw) refl e)
  ]

  lookup_cached_link-Triple : Triple I (lookup_cached_link deps tenant slug) IsRight (λ _. ⊥)
  unfolding lookup_cached_link
  lookup_cached_link-Triple =
      Triple-bind _ _ ask_redis-Triple
        (elim [ none ↦ Triple-pure miss | some r ↦ read_reply-Triple r ])

  backfill_text-Triple :
      (r : Outcome String)
      → (r ≡ stuck → ⊥)
      → Triple I (backfill_text deps tenant slug r) (λ _. I) (λ _. ⊥)
  unfolding write_backfill
  backfill_text-Triple (ok text) k = Triple-try_catch _ _ (backed.writes _ _) (λ e. backed.warns _)
  backfill_text-Triple (throw e) k = backed.warns _
  backfill_text-Triple stuck k = elim (k refl) [ ]

  write_link_tombstone-Triple : Triple I (write_link_tombstone deps tenant slug) (λ _. I) (λ _. ⊥)
  unfolding write_link_tombstone
  write_link_tombstone-Triple = Triple-try_catch _ _ (backed.writes _ _) (λ e. backed.warns _)

  start-Triple :
      (m : Act W (Unit {0}))
      → Triple I m (λ _. I) (λ _. ⊥)
      → Triple I (start deps m) (λ _. I) (λ _. ⊥)
  start-Triple m t =
      Triple-bind _ _ (Triple-caught _ t)
        (elim [ none ↦ Triple-pure tt | some e ↦ record { at = λ w n. elim n [ ] } ])

  -- The database's answer.
  abbrev IsStored : Option CachedLink → W → Type 0
  IsStored o w = (o ≡ stored) × I w

  given :
      {P : W → Type 0} {F : Type 0} (o : Option CachedLink) (m : Act W (Option CachedLink))
      → (F → Triple P m IsStored (λ _. ⊥))
      → Triple (λ w. F × P w) m IsStored (λ _. ⊥)
  given o m k = record { at = λ w (f, p). (k f).at w p }

  done :
      (o : Option CachedLink) (m : Act W (Unit {0}))
      → Triple I m (λ _. I) (λ _. ⊥)
      → Triple (λ w. (o ≡ stored) × I w) (do start deps m; pure o) IsStored (λ _. ⊥)
  done o m t = given o _ λ e.
      Triple-bind _ _ (start-Triple m t)
        λ _. Triple-weaken _ (Triple-pure {Q = IsStored} o) (λ w i. (e, i)) (λ _ w p. p) (λ w n. n)

  after_select-Triple :
      (o : Option CachedLink)
      → Triple (λ w. (o ≡ stored) × I w) (after_select deps tenant slug o) IsStored (λ _. ⊥)
  unfolding backfill_link_cache
  after_select-Triple none = done none _ write_link_tombstone-Triple
  after_select-Triple (some link) =
      done (some link) _ (backfill_text-Triple (deps.stringify_link link) (backed.stringifies link))

  after_lookup-Triple :
      (r : LinkLookupResult)
      → Triple (IsRight r) (after_lookup deps tenant slug r) IsStored (λ _. ⊥)
  after_lookup-Triple (hit link) =
      Triple-weaken _ (Triple-pure {Q = IsStored} (some link)) (λ w (e, i). (sym e, i)) (λ _ w p. p)
        (λ w n. n)
  after_lookup-Triple known_absent =
      Triple-weaken _ (Triple-pure {Q = IsStored} none) (λ w (e, i). (sym e, i)) (λ _ w p. p)
        (λ w n. n)
  after_lookup-Triple miss = Triple-bind _ _ backed.selects after_select-Triple

  -- With a database that answers `stored` for a link, a Redis that may fail or time out at every call but answers
  -- nothing that contradicts it, and a logger that does not throw, `resolveLink` ends without throwing and answers
  -- what the database has.
  pub resolve_link-IsStored :
      Triple I (resolve_link deps tenant slug) (λ o w. (o ≡ stored) × I w) (λ _. ⊥)
  unfolding resolve_link
  resolve_link-IsStored = Triple-bind _ _ lookup_cached_link-Triple after_lookup-Triple
