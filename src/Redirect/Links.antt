-- ===== src/Redirect/Links.antt =====
-- apps/api/src/redirect/resolve-link.ts: a link is looked up in Redis, and in the database behind it.
-- Redis, the database, the logger and the schema of a cached link are parameters. A Redis call that is raced
-- against its time-out answers `timed_out` where the timer wins. A write that nobody awaits runs where it is
-- started, and what it throws is dropped.
pub mod Transparency
mod Tests
use Prim.Native.Char.{nul}
use Prim.Native.String
use posta.Shared.{
  ℕ, String, List, [], ◌∷◌, Option, none, some, if◌then◌else◌, str_eq, Act, Outcome, ok, throw,
  pure, lift, caught, try_catch, ◌>>=◌, ◌>>◌,
}
use posta.Shared.Text.{concat}
use posta.Shared.Thrown.{Thrown}
use posta.Redirect.Handler.{CachedLink}

pub data LinkLookupResult : Type 0 where
  hit : CachedLink → LinkLookupResult
  miss : LinkLookupResult
  known_absent : LinkLookupResult

abbrev pub link_tombstone_ttl_seconds : ℕ
link_tombstone_ttl_seconds = 60

abbrev pub link_tombstone : String
link_tombstone = String.◌∷◌ nul String.[]

-- `linkKey`
abbrev pub link_key : String → String → String
link_key tenant slug = concat ("link:" ∷ tenant ∷ ":" ∷ slug ∷ [])

pub data RedisReply : Type 0 where
  value : Option String → RedisReply
  timed_out : RedisReply

pub data LinkWarning : Type 0 where
  get_timed_out get_failed unparsable invalid_link backfill_failed tombstone_failed :
      (tenant slug : String) → LinkWarning

pub record LinkDeps (W : Type 0) : Type 0 where
  pub redis_get : String → Act W RedisReply
  pub redis_setex : (key : String) (seconds : ℕ) (text : String) → Act W (Unit {0})
  pub select_link : (tenant slug : String) → Act W (Option CachedLink)
  pub warn : LinkWarning → Act W (Unit {0})
  -- `parseCachedLink` of a text that is not null.
  pub parse_cached_link : String → Option CachedLink
  -- `JSON.stringify(CachedLinkSchema.parse(link))`
  pub stringify_link : CachedLink → Outcome String
  pub cache_ttl_seconds : ℕ

module _ {W : Type 0} (deps : LinkDeps W) where
  abbrev pub parsed : String → String → Option CachedLink → Act W LinkLookupResult
  parsed tenant slug (some link) = pure (hit link)
  parsed tenant slug none = do deps.warn (unparsable tenant slug); pure miss

  -- What is made of Redis's answer.
  abbrev pub read_reply : String → String → RedisReply → Act W LinkLookupResult
  read_reply tenant slug timed_out = do deps.warn (get_timed_out tenant slug); pure miss
  read_reply tenant slug (value none) = pure miss
  read_reply tenant slug (value (some raw)) =
      if str_eq raw link_tombstone
      then pure known_absent
      else parsed tenant slug (deps.parse_cached_link raw)

  -- Redis's answer, or `none` where the call failed.
  pub ask_redis : String → String → Act W (Option RedisReply)
  ask_redis tenant slug =
      try_catch (do reply ← deps.redis_get (link_key tenant slug); pure (some reply))
        (λ e. do deps.warn (get_failed tenant slug); pure none)

  pub lookup_cached_link : String → String → Act W LinkLookupResult
  lookup_cached_link tenant slug = do
    reply ← ask_redis tenant slug
    elim reply [ none ↦ pure miss | some r ↦ read_reply tenant slug r ]

  pub write_backfill : String → String → String → Act W (Unit {0})
  write_backfill tenant slug text =
      try_catch (deps.redis_setex (link_key tenant slug) deps.cache_ttl_seconds text)
        (λ e. deps.warn (backfill_failed tenant slug))

  abbrev pub backfill_text : String → String → Outcome String → Act W (Unit {0})
  backfill_text tenant slug (ok text) = write_backfill tenant slug text
  backfill_text tenant slug (throw e) = deps.warn (invalid_link tenant slug)
  backfill_text tenant slug Outcome.stuck = lift Outcome.stuck

  pub backfill_link_cache : String → String → CachedLink → Act W (Unit {0})
  backfill_link_cache tenant slug link = backfill_text tenant slug (deps.stringify_link link)

  pub write_link_tombstone : String → String → Act W (Unit {0})
  write_link_tombstone tenant slug =
      try_catch (deps.redis_setex (link_key tenant slug) link_tombstone_ttl_seconds link_tombstone)
        (λ e. deps.warn (tombstone_failed tenant slug))

  -- `void`: the answer is not awaited.
  abbrev pub start : Act W (Unit {0}) → Act W (Unit {0})
  start m = do dropped ← caught m; pure tt

  abbrev pub after_select : String → String → Option CachedLink → Act W (Option CachedLink)
  after_select tenant slug none = do start (write_link_tombstone tenant slug); pure none
  after_select tenant slug (some link) = do
    start (backfill_link_cache tenant slug link)
    pure (some link)

  abbrev pub after_lookup : String → String → LinkLookupResult → Act W (Option CachedLink)
  after_lookup tenant slug (hit link) = pure (some link)
  after_lookup tenant slug known_absent = pure none
  after_lookup tenant slug miss = do
    link ← deps.select_link tenant slug
    after_select tenant slug link

  pub resolve_link : String → String → Act W (Option CachedLink)
  resolve_link tenant slug = do
    cached ← lookup_cached_link tenant slug
    after_lookup tenant slug cached
