-- ===== src/Redirect/Tenants.antt =====
-- apps/api/src/redirect/resolve-tenant.ts: a handle is looked up in the process's memo, in Redis, and in the
-- database. The memo is the first part of the state; Redis, the database, the logger and the clock act on
-- the other part. A map keeps its keys in the order in which they were added. A write that nobody awaits
-- runs where it is started, and what it throws is dropped.
pub mod Bounds
mod Tests
use Prim.Native.Char.{nul}
use Prim.Native.String
use posta.Shared.{
  ℕ, ◌+◌, String, Bool, true, false, not, ◌&&◌, List, [], ◌∷◌, drop, length, Option, none, some,
  if◌then◌else◌, str_eq, leb, Act, Outcome, ok, throw, pure, lift, caught, try_catch, ◌>>=◌, ◌>>◌,
}
use posta.Shared.Text.{concat}
use posta.Shared.Thrown.{Thrown}
use posta.Redirect.Links.{RedisReply, value, timed_out}

abbrev pub memo_ttl_ms : ℕ
memo_ttl_ms = 60000

abbrev pub memo_max_entries : ℕ
memo_max_entries = 10000

abbrev pub handle_cache_ttl_seconds : ℕ
handle_cache_ttl_seconds = 3600

abbrev pub negative_cache_ttl_seconds : ℕ
negative_cache_ttl_seconds = 60

abbrev pub absent_tenant_tombstone : String
absent_tenant_tombstone = String.◌∷◌ nul String.[]

-- `handleKey`
abbrev pub handle_key : String → String
handle_key handle = concat ("handle:" ∷ handle ∷ [])

pub record MemoEntry : Type 0 where
  pub tenant_id : Option String
  pub expires_at : ℕ

abbrev pub Memo : Type 0
Memo = List (String × MemoEntry)

pub get : String → Memo → Option MemoEntry
get handle [] = none
get handle ((key, entry) ∷ memo) =
    let rest = get handle memo in if str_eq key handle then some entry else rest

pub has_key : String → Memo → Bool
has_key handle [] = false
has_key handle ((key, entry) ∷ memo) =
    let rest = has_key handle memo in if str_eq key handle then true else rest

pub set : String → MemoEntry → Memo → Memo
set handle new [] = (handle, new) ∷ []
set handle new ((key, entry) ∷ memo) =
    let rest = set handle new memo in
    if str_eq key handle then (key, new) ∷ memo else (key, entry) ∷ rest

-- The oldest entry makes room for a new handle.
pub evict : ℕ → String → Memo → Memo
evict max_entries handle memo =
    if leb max_entries (length memo) && not (has_key handle memo) then drop 1 memo else memo

pub remember_in_memo : ℕ → String → Option String → ℕ → Memo → Memo
remember_in_memo max_entries handle tenant_id now memo =
    set handle (record { tenant_id = tenant_id; expires_at = now + memo_ttl_ms })
      (evict max_entries handle memo)

pub data TenantWarning : Type 0 where
  get_timed_out get_failed backfill_failed : (handle : String) → TenantWarning

pub record TenantDeps (W : Type 0) : Type 0 where
  pub redis_get : String → Act W RedisReply
  pub redis_setex : (key : String) (seconds : ℕ) (text : String) → Act W (Unit {0})
  pub select_tenant : (handle : String) → Act W (Option String)
  pub warn : TenantWarning → Act W (Unit {0})
  pub now : Act W ℕ

-- An action on the part of the state that is not the memo.
unfoldable pub outer : {W A : Type 0} → Act W A → Act (Memo × W) A
outer m (memo, w) = let (r, w') = m w in (r, (memo, w'))

module _ {W : Type 0} (deps : TenantDeps W) where
  pub read_memo : String → Act (Memo × W) (Option MemoEntry)
  read_memo handle (memo, w) = (ok (get handle memo), (memo, w))

  pub write_memo : String → Option String → ℕ → Act (Memo × W) (Unit {0})
  write_memo handle tenant_id now (memo, w) =
      (ok tt, (remember_in_memo memo_max_entries handle tenant_id now memo, w))

  pub remember : String → Option String → Act (Memo × W) (Unit {0})
  remember handle tenant_id = do now ← outer deps.now; write_memo handle tenant_id now

  abbrev pub ttl_seconds : Option String → ℕ
  ttl_seconds (some tenant_id) = handle_cache_ttl_seconds
  ttl_seconds none = negative_cache_ttl_seconds

  abbrev pub cached_text : Option String → String
  cached_text (some tenant_id) = tenant_id
  cached_text none = absent_tenant_tombstone

  pub backfill_handle_cache : String → Option String → Act W (Unit {0})
  backfill_handle_cache handle tenant_id =
      try_catch
        (deps.redis_setex (handle_key handle) (ttl_seconds tenant_id) (cached_text tenant_id))
        (λ e. deps.warn (backfill_failed handle))

  abbrev pub cached_value : String → RedisReply → Act W (Option String)
  cached_value handle timed_out = do deps.warn (get_timed_out handle); pure none
  cached_value handle (value cached) = pure cached

  pub ask_redis : String → Act W (Option String)
  ask_redis handle =
      try_catch (do reply ← deps.redis_get (handle_key handle); cached_value handle reply)
        (λ e. do deps.warn (get_failed handle); pure none)

  pub start_backfill : String → Option String → Act W (Unit {0})
  start_backfill handle tenant_id = do
    dropped ← caught (backfill_handle_cache handle tenant_id)
    pure tt

  -- What follows Redis's answer.
  pub after_redis : String → Option String → Act (Memo × W) (Option String)
  after_redis handle (some cached) =
      if str_eq cached absent_tenant_tombstone
      then (do remember handle none; pure none)
      else (do remember handle (some cached); pure (some cached))
  after_redis handle none = do
    tenant_id ← outer (deps.select_tenant handle)
    outer (start_backfill handle tenant_id)
    remember handle tenant_id
    pure tenant_id

  pub look_further : String → Act (Memo × W) (Option String)
  look_further handle = do cached ← outer (ask_redis handle); after_redis handle cached

  pub unless_expired : String → MemoEntry → Act (Memo × W) (Option String)
  unless_expired handle memoized = do
    now ← outer deps.now
    if leb memoized.expires_at now then look_further handle else pure memoized.tenant_id

  pub resolve_tenant : String → Act (Memo × W) (Option String)
  resolve_tenant handle = do
    memoized ← read_memo handle
    elim memoized [ none ↦ look_further handle | some entry ↦ unless_expired handle entry ]
