-- ===== src/Batch/ClassifyError.antt =====
-- apps/worker/src/batch/classify-flush-error.ts: whether a failed flush blames a row of the batch
-- (SQLSTATE classes 22 and 23) or the infrastructure.
pub mod Laws
mod Tests
use Prim.Native.String.{slice}
use posta.Shared.{ℕ, zero, suc, String, Option, none, some, List, [], ◌∷◌, has, if◌then◌else◌}
use posta.Shared.Thrown.{Thrown, error, other}

pub data FlushErrorClassification : Type 0 where
  row_fault infrastructure : FlushErrorClassification

abbrev pub row_fault_sqlstate_classes : List String
row_fault_sqlstate_classes = "22" ∷ "23" ∷ []

abbrev pub max_cause_depth : ℕ
max_cause_depth = 5

-- The loop of `extractSqlState`, over the depth that is left.
sql_state_within : ℕ → Thrown → Option String
sql_state_within zero current = none
sql_state_within (suc depth) (other text) = none
sql_state_within (suc depth) (error name message (some code) throttling status cause) = some code
sql_state_within (suc depth) (error name message none throttling status cause) =
    sql_state_within depth cause

unfoldable pub extract_sql_state : Thrown → Option String
unfolding sql_state_within
extract_sql_state thrown = sql_state_within max_cause_depth thrown

-- `sqlstate.slice(0, 2)` counts characters; a SQLSTATE is ASCII, so the two bytes that `slice`
-- takes are the two characters.
abbrev pub sqlstate_class : String → String
sqlstate_class sqlstate = slice sqlstate 0 2

abbrev pub classify_sqlstate : Option String → FlushErrorClassification
classify_sqlstate none = infrastructure
classify_sqlstate (some sqlstate) =
    if has row_fault_sqlstate_classes (sqlstate_class sqlstate) then row_fault else infrastructure

unfoldable pub classify_flush_error : Thrown → FlushErrorClassification
unfolding extract_sql_state
classify_flush_error (other text) = infrastructure
classify_flush_error (error name message code throttling status cause) =
    classify_sqlstate (extract_sql_state (error name message code throttling status cause))
