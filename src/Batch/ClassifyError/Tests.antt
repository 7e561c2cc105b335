-- ===== src/Batch/ClassifyError/Tests.antt =====
-- classify-flush-error.ts at concrete errors.
use posta.Shared.{◌≡◌, refl, ◌↔◌, take}
use posta.Batch.ClassifyError.{row_fault, infrastructure, max_cause_depth, classify_flush_error}
use posta.Batch.ClassifyError.Laws.{code_chain, first_some, IsRowFault, classify_flush_error_iff}
use posta.Batch.Samples.{row_error, reset_error, denied_error}

classify_tests :
    (classify_flush_error row_error ≡ row_fault)
    × (classify_flush_error reset_error ≡ infrastructure)
    × (classify_flush_error denied_error ≡ infrastructure)
unfolding classify_flush_error
classify_tests = (refl, refl, refl)

classify_flush_error_example :
    (classify_flush_error row_error ≡ row_fault)
    ↔ IsRowFault (first_some (take max_cause_depth (code_chain row_error)))
classify_flush_error_example = classify_flush_error_iff row_error
