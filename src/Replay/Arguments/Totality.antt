-- ===== src/Replay/Arguments/Totality.antt =====
-- The check of the arguments comes to an end.
use posta.Shared.{
  ◌≡◌, refl, ℕ, String, not, ◌||◌, Option, none, some, leb, ltb, str_eq, Outcome, ok, throw, stuck,
  List,
}
use posta.Shared.Binding.{bind_outcome-ends, if-ends}
use posta.Replay.Arguments.{
  ArgValues, max_batch_size, required_date, parse_required_date, is_fully_numeric, parse_int,
  parse_batch_size, check_values, values_or_error, parse_replay_args,
}

required_date-ends : (o : Option ℕ) (raw flag : String) → required_date o raw flag ≡ stuck → ⊥
required_date-ends none raw flag e = cc
required_date-ends (some ms) raw flag e = cc

parse_required_date-ends :
    (date_parse : String → Option ℕ) (value : Option String) (flag : String)
    → parse_required_date date_parse value flag ≡ stuck
    → ⊥
unfolding parse_required_date
parse_required_date-ends date_parse none flag e = cc
parse_required_date-ends date_parse (some raw) flag e =
    if-ends (str_eq raw "") _ _ (λ h. cc) (required_date-ends (date_parse raw) raw flag) e

parse_batch_size-ends : (raw : Option String) → parse_batch_size raw ≡ stuck → ⊥
unfolding parse_batch_size
parse_batch_size-ends none e = cc
parse_batch_size-ends (some raw) e =
    if-ends (not (is_fully_numeric raw) || leb (parse_int 0 raw) 0) _ _ (λ h. cc)
      (if-ends (ltb max_batch_size (parse_int 0 raw)) _ _ (λ h. cc) (λ h. cc)) e

check_values-ends :
    (date_parse : String → Option ℕ) (values : ArgValues)
    → check_values date_parse values ≡ stuck
    → ⊥
unfolding check_values
check_values-ends date_parse values =
    bind_outcome-ends _ _ (parse_required_date-ends date_parse values.from "--from") λ first.
      bind_outcome-ends _ _ (parse_required_date-ends date_parse values.to "--to") λ last.
        bind_outcome-ends _ _ (if-ends (ltb last.1 first.1) _ _ (λ h. cc) (λ h. cc))
          λ u. bind_outcome-ends _ _ (parse_batch_size-ends values.batch_size) λ size h. cc

values_or_error-ends : (r : Outcome ArgValues) → (r ≡ stuck → ⊥) → values_or_error r ≡ stuck → ⊥
values_or_error-ends (ok values) k e = cc
values_or_error-ends (throw x) k e = cc
values_or_error-ends stuck k e = k refl

pub parse_replay_args-ends :
    (date_parse : String → Option ℕ) (parse_args : List String → Outcome ArgValues)
    (argv : List String)
    → (parse_args argv ≡ stuck → ⊥)
    → parse_replay_args date_parse parse_args argv ≡ stuck
    → ⊥
unfolding parse_replay_args
parse_replay_args-ends date_parse parse_args argv k =
    bind_outcome-ends _ _ (values_or_error-ends (parse_args argv) k) (check_values-ends date_parse)
