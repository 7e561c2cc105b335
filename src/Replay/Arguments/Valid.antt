-- ===== src/Replay/Arguments/Valid.antt =====
-- What the options of a replay satisfy.
use Prim.Native.Char.{code}
use posta.Shared.Chars.{every}
use posta.Shared.{
  ◌+◌, ◌*◌, ◌-◌, ◌≡◌, refl, sym, ap, subst, ◌∙◌, arith, ℕ, ◌≤◌, String, Bool, true, false, not,
  List, Option, none, some, if◌then◌else◌, ltb, leb, ◌||◌, str_eq, Outcome, ok, throw, stuck,
}
use posta.Shared.Thrown.{Thrown}
use posta.Shared.Binding.{bind_outcome-ok}
use posta.Replay.Arguments.{
  is_digit, max_batch_size, ArgValues, ReplayCliOptions, required_date, parse_required_date,
  is_fully_numeric, parse_int, parse_batch_size, ordered_dates, values_or_error, check_values,
  parse_replay_args,
}

-- A batch size that was given is between 1 and 500.
abbrev pub IsBatchSize : Option ℕ → Type 0
IsBatchSize none = Unit {0}
IsBatchSize (some n) = (1 ≤ n) × (n ≤ max_batch_size)

-- The power of ten that has as many zeros as a text has characters.
abbrev pub scale : String → ℕ
scale String.[] = 1
scale (String.◌∷◌ c s) = 10 * scale s

-- The number that a text of decimal digits denotes: each digit by the power of its place.
abbrev pub decimal : String → ℕ
decimal String.[] = 0
decimal (String.◌∷◌ c s) = (code c - 48) * scale s + decimal s

-- The batch size is that of the flag: a number of decimal digits, and none without the flag.
abbrev pub IsBatchSizeOf : Option String → Option ℕ → Type 0
IsBatchSizeOf none size = size ≡ none
IsBatchSizeOf (some raw) size = (every is_digit raw ≡ true) × (size ≡ some (decimal raw))

-- The two dates are dates, the first not after the last; the rest is as it was given.
pub record IsValid (date_parse : String → Option ℕ) (values : ArgValues)
    (options : ReplayCliOptions) : Type 0 where
  pub from : values.from ≡ some options.from
  pub to : values.to ≡ some options.to
  pub dates :
      (a : ℕ) × (b : ℕ) × (date_parse options.from ≡ some a)
      × (date_parse options.to ≡ some b)
      × (a ≤ b)
  pub tenant : options.tenant_id ≡ values.tenant
  pub dry_run : options.dry_run ≡ values.dry_run
  pub batch_size : IsBatchSize options.batch_size
  pub given_size : IsBatchSizeOf values.batch_size options.batch_size

fields-IsValid :
    (date_parse : String → Option ℕ) (values : ArgValues) (first last : String × ℕ)
    (size : Option ℕ) (options : ReplayCliOptions)
    → values.from ≡ some first.0
    → values.to ≡ some last.0
    → date_parse first.0 ≡ some first.1
    → date_parse last.0 ≡ some last.1
    → first.1 ≤ last.1
    → IsBatchSize size
    → IsBatchSizeOf values.batch_size size
    → record {
      from = first.0;
      to = last.0;
      tenant_id = values.tenant;
      dry_run = values.dry_run;
      batch_size = size;
    }
      ≡ options
    → IsValid date_parse values options
fields-IsValid date_parse values first last size options a b c d o s g e =
    subst (IsValid date_parse values) e (record {
      from = a;
      to = b;
      dates = (first.1, last.1, c, d, o);
      tenant = refl;
      dry_run = refl;
      batch_size = s;
      given_size = g;
    })

-- A test that must have been false.
passed :
    {A : Type 0} (b : Bool) (e : Thrown) (r : Outcome A) (a : A)
    → (if b then throw e else r) ≡ ok a
    → (b ≡ false) × (r ≡ ok a)
passed true e r a h = cc
passed false e r a h = (refl, h)

size_bounds :
    (b : Bool) (n : ℕ)
    → (b || leb n 0) ≡ false
    → ltb max_batch_size n ≡ false
    → IsBatchSize (some n)
size_bounds true n h k = cc
size_bounds false n h k = ground (arith, h, k)

parse_batch_size-IsBatchSize :
    (raw : Option String) (size : Option ℕ) → parse_batch_size raw ≡ ok size → IsBatchSize size
unfolding parse_batch_size
parse_batch_size-IsBatchSize none size h = let e : none ≡ size = cc in subst IsBatchSize e tt
parse_batch_size-IsBatchSize (some raw) size h =
    let (number, h') = passed (not (is_fully_numeric raw) || leb (parse_int 0 raw) 0) _ _ size h in
    let (small, h'') = passed (ltb max_batch_size (parse_int 0 raw)) _ _ size h' in
    let e : some (parse_int 0 raw) ≡ size = cc in
    subst IsBatchSize e (size_bounds (not (is_fully_numeric raw)) (parse_int 0 raw) number small)

-- Reading the digits from the left gives the number that they denote.
parse_int-decimal : (acc : ℕ) (s : String) → parse_int acc s ≡ acc * scale s + decimal s
unfolding parse_int
parse_int-decimal acc String.[] = omega arith
parse_int-decimal acc (String.◌∷◌ c s) =
    parse_int-decimal (acc * 10 + (code c - 48)) s ∙ grind arith

digits_of :
    (raw : String) (b : Bool)
    → (not (is_fully_numeric raw) || b) ≡ false
    → every is_digit raw ≡ true
unfolding is_fully_numeric
digits_of raw b h = ground (arith, h)

parse_batch_size-IsBatchSizeOf :
    (raw : Option String) (size : Option ℕ)
    → parse_batch_size raw ≡ ok size
    → IsBatchSizeOf raw size
unfolding parse_batch_size
parse_batch_size-IsBatchSizeOf none size h = cc
parse_batch_size-IsBatchSizeOf (some raw) size h =
    let (number, h') = passed (not (is_fully_numeric raw) || leb (parse_int 0 raw) 0) _ _ size h in
    let (small, h'') = passed (ltb max_batch_size (parse_int 0 raw)) _ _ size h' in
    let e : some (parse_int 0 raw) ≡ size = cc in
    let value : parse_int 0 raw ≡ decimal raw = parse_int-decimal 0 raw ∙ omega arith in
    (digits_of raw _ number, sym e ∙ ap some value)

required_date-ok :
    (o : Option ℕ) (raw flag : String) (r : String × ℕ)
    → required_date o raw flag ≡ ok r
    → (raw ≡ r.0) × (o ≡ some r.1)
required_date-ok none raw flag r h = cc
required_date-ok (some ms) raw flag r h =
    let e : (raw, ms) ≡ r = cc in (ap (λ x. x.0) e, ap (λ x. some x.1) e)

parse_required_date-ok :
    (date_parse : String → Option ℕ) (value : Option String) (flag : String) (r : String × ℕ)
    → parse_required_date date_parse value flag ≡ ok r
    → (value ≡ some r.0) × (date_parse r.0 ≡ some r.1)
unfolding parse_required_date
parse_required_date-ok date_parse none flag r h = cc
parse_required_date-ok date_parse (some raw) flag r h =
    let (_, h') = passed (str_eq raw "") _ _ r h in
    let (same, date) = required_date-ok (date_parse raw) raw flag r h' in
    (ap some same, ap date_parse (sym same) ∙ date)

not_after : (a b : ℕ) → ltb b a ≡ false → a ≤ b
not_after a b h = ground (arith, h)

ordered_dates-ok :
    (first last : String × ℕ) (u : Unit {0}) → ordered_dates first last ≡ ok u → first.1 ≤ last.1
ordered_dates-ok (first, a) (last, b) u h =
    let (order, _) = passed (ltb b a) _ _ u h in not_after a b order

check_values-IsValid :
    (date_parse : String → Option ℕ) (values : ArgValues) (options : ReplayCliOptions)
    → check_values date_parse values ≡ ok options
    → IsValid date_parse values options
unfolding check_values
check_values-IsValid date_parse values options h =
    let (first, e₁, h₁) = bind_outcome-ok _ _ _ h in
    let (last, e₂, h₂) = bind_outcome-ok _ _ _ h₁ in
    let (u, e₃, h₃) = bind_outcome-ok _ _ _ h₂ in
    let (size, e₄, h₄) = bind_outcome-ok _ _ _ h₃ in
    let (is_first, date) = parse_required_date-ok date_parse values.from "--from" first e₁ in
    let (is_last, date') = parse_required_date-ok date_parse values.to "--to" last e₂ in
    fields-IsValid date_parse values first last size options is_first is_last date date'
      (ordered_dates-ok first last u e₃) (parse_batch_size-IsBatchSize values.batch_size size e₄)
      (parse_batch_size-IsBatchSizeOf values.batch_size size e₄) (cc)

values_or_error-ok :
    (r : Outcome ArgValues) (values : ArgValues) → values_or_error r ≡ ok values → r ≡ ok values
values_or_error-ok (ok x) values h = h
values_or_error-ok (throw e) values h = cc
values_or_error-ok stuck values h = cc

-- Options that `parseReplayArgs` returns are those that `parseArgs` found: the two texts of dates, of which the first
-- is not after the last; tenant and dry run as they were given; and the batch size that the digits of the flag denote
-- in base ten, between 1 and 500, or none without the flag.
pub parse_replay_args-IsValid :
    (date_parse : String → Option ℕ) (parse_args : List String → Outcome ArgValues)
    (argv : List String) (options : ReplayCliOptions)
    → parse_replay_args date_parse parse_args argv ≡ ok options
    → (values : ArgValues) × (parse_args argv ≡ ok values) × IsValid date_parse values options
unfolding parse_replay_args
parse_replay_args-IsValid date_parse parse_args argv options e =
    let (values, found, h) = bind_outcome-ok _ _ _ e in
    (
      values,
      values_or_error-ok (parse_args argv) values found,
      check_values-IsValid date_parse values options h,
    )
