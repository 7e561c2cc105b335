-- ===== src/Batch/ClassifyError/Laws.antt =====
-- What `extractSqlState` finds on a chain of causes, and which errors blame a row.
use posta.Shared.{
  ℕ, zero, suc, String, ◌≡◌, refl, ◌↔◌, ◌⊎◌, Option, none, some, List, [], ◌∷◌, take, arith,
  str_eq_iff,
}
use posta.Shared.Thrown.{Thrown, error, other}
use posta.Batch.ClassifyError.{
  row_fault, classify_sqlstate, sqlstate_class, max_cause_depth, sql_state_within,
  extract_sql_state, classify_flush_error,
}

-- The `code` of each `Error` on the chain of causes, the outermost first.
abbrev pub code_chain : Thrown → List (Option String)
code_chain (error name message code throttling status cause) = code ∷ code_chain cause
code_chain (other text) = []

abbrev pub first_some : List (Option String) → Option String
first_some [] = none
first_some (none ∷ codes) = first_some codes
first_some (some code ∷ codes) = some code

sql_state_within_lem :
    (depth : ℕ) (e : Thrown) → sql_state_within depth e ≡ first_some (take depth (code_chain e))
unfolding sql_state_within
sql_state_within_lem zero e = refl
sql_state_within_lem (suc depth) (other text) = refl
sql_state_within_lem (suc depth) (error name message none throttling status cause) =
    sql_state_within_lem depth cause
sql_state_within_lem (suc depth) (error name message (some code) throttling status cause) = refl

-- The SQLSTATE of an error is the first string `code` among the first five errors of its chain.
pub extract_sql_state_lem :
    (e : Thrown) → extract_sql_state e ≡ first_some (take max_cause_depth (code_chain e))
unfolding extract_sql_state
extract_sql_state_lem e = sql_state_within_lem max_cause_depth e

abbrev pub IsRowFault : Option String → Type 0
IsRowFault found =
    (code : String) × (found ≡ some code)
    × ((sqlstate_class code ≡ "22") ⊎ (sqlstate_class code ≡ "23"))

classify_sqlstate_iff :
    (found : Option String) → (classify_sqlstate found ≡ row_fault) ↔ IsRowFault found
classify_sqlstate_iff none = ground arith
classify_sqlstate_iff (some code) = (
  (λ h. (
    code,
    refl,
    ground (arith, str_eq_iff (sqlstate_class code) "22", str_eq_iff (sqlstate_class code) "23"),
  )),
  λ h. ground (arith, str_eq_iff (sqlstate_class code) "22", str_eq_iff (sqlstate_class code) "23"),
)

-- A thrown value blames a row exactly when the first string `code` among the first five errors of
-- its chain of causes is of SQLSTATE class 22 or 23.
pub classify_flush_error_iff :
    (e : Thrown)
    → (classify_flush_error e ≡ row_fault)
      ↔ IsRowFault (first_some (take max_cause_depth (code_chain e)))
unfolding classify_flush_error
classify_flush_error_iff (other text) = ground arith
classify_flush_error_iff (error name message code throttling status cause) =
    let e : Thrown = error name message code throttling status cause in
    rw (extract_sql_state_lem e) (classify_sqlstate_iff _)
