-- ===== src/Shared/Effects.antt =====
-- Asynchronous code that may throw, as state passing over the world `W` that its collaborators act
-- on: `await` is the bind, a rejected promise is `throw`. `stuck` is the answer of a loop whose fuel
-- ran out; no code in the program answers so.
use mathlib.Core.Option.{Option, none, some}
use posta.Shared.Thrown.{Thrown}

pub data Outcome {ℓ} (A : Type ℓ) : Type ℓ where
  ok : A → Outcome A
  throw : Thrown → Outcome A
  stuck : Outcome A

abbrev pub Act : Type 0 → Type 0 → Type 0
Act W A = W → Outcome A × W

module _ {W A : Type 0} where
  unfoldable pub pure : A → Act W A
  pure a w = (ok a, w)

  unfoldable pub raise : Thrown → Act W A
  raise e w = (throw e, w)

  unfoldable pub no_fuel : Act W A
  no_fuel w = (stuck, w)

  -- An answer that is at hand, as `await` of a value or a synchronous throw.
  unfoldable pub lift : Outcome A → Act W A
  lift r w = (r, w)

-- `try { await m } catch (e) { … }`, as a value: `none` where `m` returned.
module _ {W : Type 0} where
  abbrev pub caught_outcome : Outcome (Unit {0}) → Act W (Option Thrown)
  caught_outcome (ok _) w = (ok none, w)
  caught_outcome (throw e) w = (ok (some e), w)
  caught_outcome stuck w = (stuck, w)

  unfoldable pub caught : Act W (Unit {0}) → Act W (Option Thrown)
  caught m w = let (r, w') = m w in caught_outcome r w'

-- `try { return await m } catch (e) { … }`
module _ {W A : Type 0} where
  abbrev pub handled : Outcome A → (Thrown → Act W A) → Act W A
  handled (ok a) handler w = (ok a, w)
  handled (throw e) handler w = handler e w
  handled stuck handler w = (stuck, w)

  unfoldable pub try_catch : Act W A → (Thrown → Act W A) → Act W A
  try_catch m handler w = let (r, w') = m w in handled r handler w'

module _ {W A B : Type 0} where
  abbrev pub continue : Outcome A → (A → Act W B) → Act W B
  continue (ok a) f w = f a w
  continue (throw e) f w = (throw e, w)
  continue stuck f w = (stuck, w)

  infixl 5 ◌>>=◌ ◌>>◌
  -- Opening this opens the actions above too.
  unfoldable pub ◌>>=◌ : Act W A → (A → Act W B) → Act W B
  unfolding pure raise no_fuel lift caught try_catch
  ◌>>=◌ m f w = let (r, w') = m w in continue r f w'

  abbrev pub ◌>>◌ : Act W A → Act W B → Act W B
  m >> n = m >>= λ _. n

-- `try { return await m } finally { await after }`
module _ {W A : Type 0} where
  abbrev pub finished : Outcome A → Act W (Unit {0}) → Act W A
  finished (ok a) after = after >>= λ _. pure a
  finished (throw e) after = after >>= λ _. raise e
  finished stuck after = no_fuel

  unfoldable pub try_finally : Act W A → Act W (Unit {0}) → Act W A
  try_finally m after w = let (r, w') = m w in finished r after w'

-- The same for code that waits for nothing.
abbrev pub bind_outcome {ℓ κ} : {A : Type ℓ} {B : Type κ} → Outcome A → (A → Outcome B) → Outcome B
bind_outcome (ok a) f = f a
bind_outcome (throw e) f = throw e
bind_outcome stuck f = stuck
