-- ===== src/Core/EventLog/Keys/Coverage.antt =====
-- The prefixes of a range of days lead to every batch that was stored in it.
use mathlib.Core.List.{Mem, mem-cons_self, mem-cons_of_mem, mem-append_left, mem-append_right}
use posta.Shared.{
  false, true, ◌⊎◌, ℕ, zero, suc, ◌+◌, ◌-◌, ◌*◌, ◌/◌, ◌≤◌, ◌<◌, ◌≡◌, refl, String, List, [], ◌∷◌,
  ◌++◌, Option, some, ltb, leb, ok, arith, subst, sym, inl, inr,
}
use posta.Shared.Text.{concat}
use posta.Core.EventLog.Keys.{
  UtcDate, utc_date, partition_prefix, day_of, hour_of, hour_prefixes, day_prefixes, ms_per_day,
  event_batch_key, prefixes_of_days, event_prefixes, hours_per_day, max_range_days,
}

bounds-clash : (a b : ℕ) → a ≤ b → b < a + 0 → ⊥
bounds-clash a b h k = omega arith

le_cases : (a b : ℕ) → a ≤ b → (a ≡ b) ⊎ (a + 1 ≤ b)
le_cases a b h = omega arith

hour_prefixes-Mem :
    (d : UtcDate) (hour left wanted : ℕ)
    → hour ≤ wanted
    → wanted < hour + left
    → Mem (partition_prefix d wanted) (hour_prefixes d hour left)
unfolding hour_prefixes
hour_prefixes-Mem d hour zero wanted h k = elim (bounds-clash hour wanted h k) [ ]
hour_prefixes-Mem d hour (suc left) wanted h k = elim (le_cases hour wanted h) [
  | inl e ↦
      subst (λ n. Mem (partition_prefix d n) (hour_prefixes d hour (suc left))) e mem-cons_self
  | inr l ↦ mem-cons_of_mem _ (hour_prefixes-Mem d (hour + 1) left wanted l (omega arith))
]

day_of-mul : (a : ℕ) → day_of (ms_per_day * a) ≡ a
day_of-mul a = omega arith

next_day : (a : ℕ) → ms_per_day * a + ms_per_day ≡ ms_per_day * (a + 1)
next_day a = omega arith

leb-true : (a b : ℕ) → a ≤ b → leb a b ≡ true
leb-true a b h = ground arith

day_prefixes-suc :
    (fuel a b : ℕ)
    → a ≤ b
    → day_prefixes (suc fuel) (ms_per_day * a) (ms_per_day * b)
      ≡ hour_prefixes (utc_date a) 0 hours_per_day
        ++ day_prefixes fuel (ms_per_day * (a + 1)) (ms_per_day * b)
unfolding day_prefixes
day_prefixes-suc fuel a b h =
    rw (leb-true (ms_per_day * a) (ms_per_day * b) (omega arith), day_of-mul a, next_day a) refl

day_prefixes-Mem :
    (fuel a b wanted hour : ℕ)
    → a ≤ wanted
    → wanted ≤ b
    → b < a + fuel
    → hour < 24
    → Mem
        (partition_prefix (utc_date wanted) hour)
        (day_prefixes fuel (ms_per_day * a) (ms_per_day * b))
day_prefixes-Mem zero a b wanted hour h k l m = elim (bounds-clash a b (omega arith) l) [ ]
day_prefixes-Mem (suc fuel) a b wanted hour h k l m =
    subst (Mem _) (sym (day_prefixes-suc fuel a b (omega arith))) (elim (le_cases a wanted h) [
      | inl e ↦ mem-append_left _ (
          subst (λ n. Mem (partition_prefix (utc_date n) hour) (hour_prefixes (utc_date a) 0 24)) e
            (hour_prefixes-Mem (utc_date a) 0 24 hour (omega arith) m))
      | inr n ↦ mem-append_right _ (day_prefixes-Mem fuel (a + 1) b wanted hour n k (omega arith) m)
    ])

ltb-false : (a b : ℕ) → b ≤ a → ltb a b ≡ false
ltb-false a b h = ground arith

range_days : (a b : ℕ) → (ms_per_day * b - ms_per_day * a) / ms_per_day + 1 ≡ b - a + 1
range_days a b = omega arith

prefixes_of_days-Mem :
    (a b wanted hour : ℕ)
    → a ≤ wanted
    → wanted ≤ b
    → b - a < max_range_days
    → hour < 24
    → (prefixes : List String) × (prefixes_of_days (ms_per_day * a) (ms_per_day * b) ≡ ok prefixes)
      × Mem (partition_prefix (utc_date wanted) hour) prefixes
unfolding prefixes_of_days
prefixes_of_days-Mem a b wanted hour h k l m = (
  day_prefixes (b - a + 1) (ms_per_day * a) (ms_per_day * b),
  rw
      (
        ltb-false (ms_per_day * b) (ms_per_day * a) (omega arith),
        range_days a b,
        ltb-false max_range_days (b - a + 1) (omega arith),
      )
      refl,
  day_prefixes-Mem (b - a + 1) a b wanted hour h k (omega arith) m,
)

-- Every batch that was stored under a day of a range, of at most 3660 days, is found by the range's prefixes:
-- the key that `eventBatchKey` gives it begins with one of the prefixes that `eventPrefixes` lists,
-- followed by the batch's own file name.
pub event_prefixes-event_batch_key :
    (date_parse : String → Option ℕ) (first last occurred_at batch_id : String) (a b t : ℕ)
    → date_parse first ≡ some a
    → date_parse last ≡ some b
    → date_parse occurred_at ≡ some t
    → day_of a ≤ day_of t
    → day_of t ≤ day_of b
    → day_of b - day_of a < max_range_days
    → (prefixes : List String) × (event_prefixes date_parse first last ≡ ok prefixes)
      × (prefix : String) × Mem prefix prefixes
      × (event_batch_key date_parse batch_id occurred_at
          ≡ ok (concat (prefix ∷ batch_id ∷ ".ndjson" ∷ [])))
unfolding event_prefixes event_batch_key
event_prefixes-event_batch_key date_parse first last occurred_at batch_id a b t ea eb et h k l =
    let (prefixes, e, m) =
      prefixes_of_days-Mem (day_of a) (day_of b) (day_of t) (hour_of t) h k l (omega arith) in
    (prefixes, rw (ea, eb) e, partition_prefix (utc_date (day_of t)) (hour_of t), m, rw et refl)
