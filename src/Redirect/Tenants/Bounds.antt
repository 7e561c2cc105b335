-- ===== src/Redirect/Tenants/Bounds.antt =====
-- The memo never outgrows its bound, and remembers what it was given last.
use posta.Shared.{
  ◌⊎◌, ℕ, suc, ◌≤◌, ◌≡◌, refl, String, Bool, true, false, not, ◌&&◌, [], ◌∷◌, length, length-drop,
  Option, none, some, if◌then◌else◌, str_eq, leb, leb→le, Bool-cases, inl, inr, arith, Act,
}
use posta.Shared.Rules.{Keeps, Keeps-pure, Keeps-bind}
use posta.Redirect.Tenants.{
  MemoEntry, Memo, has_key, set, evict, remember_in_memo, memo_max_entries, TenantDeps, outer,
  read_memo, write_memo, remember, after_redis, look_further, unless_expired, resolve_tenant,
  absent_tenant_tombstone,
}

and_false : (b : Bool) → (b && not true) ≡ false
and_false true = refl
and_false false = refl

either : (b : Bool) (n m : ℕ) → suc n ≤ m → (if b then n else suc n) ≤ m
either true n m h = omega arith
either false n m h = h

length-set :
    (handle : String) (new : MemoEntry) (memo : Memo)
    → length (set handle new memo)
      ≡ (if has_key handle memo then length memo else suc (length memo))
unfolding set has_key
length-set handle new [] = refl
length-set handle new ((key, entry) ∷ memo) = elim (Bool-cases (str_eq key handle)) [
  | inl e ↦ rw e refl
  | inr e ↦ rw (e, length-set handle new memo) (ground arith)
]

-- Room for one entry more, or the handle is there already.
abbrev HasRoom : ℕ → String → Memo → Type 0
HasRoom max_entries handle memo =
    ((has_key handle memo ≡ true) × (length memo ≤ max_entries)) ⊎ (suc (length memo) ≤ max_entries)

length-set_room :
    (max_entries : ℕ) (handle : String) (new : MemoEntry) (memo : Memo)
    → HasRoom max_entries handle memo
    → length (set handle new memo) ≤ max_entries
length-set_room max_entries handle new memo (inl (e, k)) = rw (length-set handle new memo, e) k
length-set_room max_entries handle new memo (inr k) =
    rw (length-set handle new memo) (either (has_key handle memo) (length memo) max_entries k)

evict-HasRoom :
    (max_entries : ℕ) (handle : String) (memo : Memo)
    → 1 ≤ max_entries
    → length memo ≤ max_entries
    → HasRoom max_entries handle (evict max_entries handle memo)
unfolding evict
evict-HasRoom max_entries handle memo h k = elim (Bool-cases (has_key handle memo)) [
  | inl e ↦ rw (e, and_false (leb max_entries (length memo))) (inl (e, k))
  | inr e ↦ elim (Bool-cases (leb max_entries (length memo))) [
    | inl f ↦
        rw (e, f)
          (inr (rw (length-drop 1 memo) (omega (arith, leb→le max_entries (length memo) f))))
    | inr f ↦ rw (e, f) (inr (ground arith))
  ]
]

length-remember_in_memo :
    (max_entries : ℕ) (handle : String) (tenant_id : Option String) (now : ℕ) (memo : Memo)
    → 1 ≤ max_entries
    → length memo ≤ max_entries
    → length (remember_in_memo max_entries handle tenant_id now memo) ≤ max_entries
unfolding remember_in_memo
length-remember_in_memo max_entries handle tenant_id now memo h k =
    length-set_room max_entries handle _ (evict max_entries handle memo)
      (evict-HasRoom max_entries handle memo h k)

module _ {W : Type 0} where
  abbrev pub IsBounded : Memo × W → Type 0
  IsBounded (memo, w) = length memo ≤ memo_max_entries

  Keeps-outer : {A : Type 0} (m : Act W A) → Keeps IsBounded (outer m)
  unfolding outer
  Keeps-outer m = record { at = λ (memo, w) i. i }

  remember-IsBounded :
      (deps : TenantDeps W) (handle : String) (tenant_id : Option String)
      → Keeps IsBounded (remember deps handle tenant_id)
  unfolding remember write_memo
  remember-IsBounded deps handle tenant_id = Keeps-bind _ _ (Keeps-outer _) λ now. record {
    at = λ (memo, w) i.
        length-remember_in_memo memo_max_entries handle tenant_id now memo (omega arith) i;
  }

  if-IsBounded :
      {A : Type 0} (b : Bool) (m n : Act (Memo × W) A)
      → Keeps IsBounded m
      → Keeps IsBounded n
      → Keeps IsBounded (if b then m else n)
  if-IsBounded true m n k l = k
  if-IsBounded false m n k l = l

  after_redis-IsBounded :
      (deps : TenantDeps W) (handle : String) (cached : Option String)
      → Keeps IsBounded (after_redis deps handle cached)
  unfolding after_redis
  after_redis-IsBounded deps handle (some cached) =
      if-IsBounded (str_eq cached absent_tenant_tombstone) _ _
        (Keeps-bind _ _ (remember-IsBounded deps handle none) λ _. Keeps-pure none)
        (Keeps-bind _ _ (remember-IsBounded deps handle (some cached))
          λ _. Keeps-pure (some cached))
  after_redis-IsBounded deps handle none = Keeps-bind _ _ (Keeps-outer _) λ tenant_id.
      Keeps-bind _ _ (Keeps-outer _)
        λ _. Keeps-bind _ _ (remember-IsBounded deps handle tenant_id) λ _. Keeps-pure tenant_id

  look_further-IsBounded :
      (deps : TenantDeps W) (handle : String) → Keeps IsBounded (look_further deps handle)
  unfolding look_further
  look_further-IsBounded deps handle =
      Keeps-bind _ _ (Keeps-outer _) λ cached. after_redis-IsBounded deps handle cached

  unless_expired-IsBounded :
      (deps : TenantDeps W) (handle : String) (entry : MemoEntry)
      → Keeps IsBounded (unless_expired deps handle entry)
  unfolding unless_expired
  unless_expired-IsBounded deps handle entry = Keeps-bind _ _ (Keeps-outer _) λ now.
      if-IsBounded (leb entry.expires_at now) _ _ (look_further-IsBounded deps handle)
        (Keeps-pure _)

  -- Whatever Redis, the database, the clock and the logger do, and whether the lookup returns or throws, it leaves
  -- a memo of at most 10000 entries with at most 10000 entries.
  pub resolve_tenant-IsBounded :
      (deps : TenantDeps W) (handle : String) → Keeps IsBounded (resolve_tenant deps handle)
  unfolding resolve_tenant read_memo
  resolve_tenant-IsBounded deps handle =
      Keeps-bind _ _ (record { at = λ (memo, w) i. i })
        (elim [
          | none ↦ look_further-IsBounded deps handle
          | some entry ↦ unless_expired-IsBounded deps handle entry
        ])
