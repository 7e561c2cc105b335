-- ===== src/Batch/Accumulator/Construction.antt =====
-- An accumulator that the constructor returns is a fresh one, with a positive batch size.
use posta.Shared.{ℕ, zero, suc, ◌<◌, ◌≡◌, subst, ok, arith}
use posta.Shared.Thrown.{JsNumber, nat, not_nat}
use posta.Batch.Accumulator.{Accumulator, create, initial}

-- What holds of every fresh accumulator holds of the constructed one.
pub create_induction :
    {T : Type 0} (P : Accumulator T → Type 0) (size interval : JsNumber) (now : ℕ)
    (s : Accumulator T)
    → ((n i : ℕ) → 0 < n → P (initial n i now))
    → create size interval now ≡ ok s
    → P s
unfolding create
create_induction P (nat (suc n)) (nat (suc i)) now s fresh h =
    subst P (cc) (fresh (suc n) (suc i) (omega arith))
create_induction P not_nat interval now s fresh h = cc
create_induction P (nat zero) interval now s fresh h = cc
create_induction P (nat (suc n)) not_nat now s fresh h = cc
create_induction P (nat (suc n)) (nat zero) now s fresh h = cc
