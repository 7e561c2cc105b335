-- ===== src/Core/EventLog/Keys/Totality.antt =====
-- A key is computed or refused.
use posta.Shared.{ℕ, ◌≡◌, String, ◌+◌, ◌*◌, ◌-◌, ◌/◌, ltb, Option, none, some, stuck}
use posta.Shared.Binding.{bind_outcome-ends, if-ends}
use posta.Core.EventLog.Keys.{
  prefixes_of_days, day_of, ms_per_day, max_range_days, event_prefixes, event_batch_key, valid,
  parse_instant,
}

valid_ends :
    (o : Option ℕ) (text fn_name param_name : String)
    → valid (λ _. none) o text fn_name param_name ≡ stuck
    → ⊥
valid_ends none text fn_name param_name e = cc
valid_ends (some ms) text fn_name param_name e = cc

pub event_batch_key-ends :
    (date_parse : String → Option ℕ) (batch_id occurred_at : String)
    → event_batch_key date_parse batch_id occurred_at ≡ stuck
    → ⊥
unfolding event_batch_key
event_batch_key-ends date_parse batch_id occurred_at h =
    bind_outcome-ends (parse_instant date_parse occurred_at "eventBatchKey" "occurredAt") _
      (valid_ends (date_parse occurred_at) occurred_at "eventBatchKey" "occurredAt") (λ ms e. cc) h

prefixes_of_days-ends : (a b : ℕ) → prefixes_of_days a b ≡ stuck → ⊥
unfolding prefixes_of_days
prefixes_of_days-ends a b =
    if-ends (ltb b a) _ _ (λ h. cc)
      (if-ends (ltb max_range_days ((b - a) / ms_per_day + 1)) _ _ (λ h. cc) (λ h. cc))

pub event_prefixes-ends :
    (date_parse : String → Option ℕ) (first last : String)
    → event_prefixes date_parse first last ≡ stuck
    → ⊥
unfolding event_prefixes
event_prefixes-ends date_parse first last =
    bind_outcome-ends (parse_instant date_parse first "eventPrefixes" "from") _
      (valid_ends (date_parse first) first "eventPrefixes" "from")
      λ a.
        bind_outcome-ends (parse_instant date_parse last "eventPrefixes" "to") _
          (valid_ends (date_parse last) last "eventPrefixes" "to")
          λ b. prefixes_of_days-ends (ms_per_day * day_of a) (ms_per_day * day_of b)
