-- ===== src/Shared/Triples.antt =====
-- Hoare triples for actions, of total correctness: from a world with `P`, the action returns with
-- `Q` or throws with `E`, and it comes to an end.
use mathlib.Core.Option.{Option, none, some}
use mathlib.Core.Bool.{Bool, true, false}
use posta.Shared.Tests.{if◌then◌else◌}
use posta.Shared.Thrown.{Thrown}
use posta.Shared.Effects.{
  Outcome, ok, throw, stuck, Act, pure, raise, lift, caught, caught_outcome, continue, handled,
  try_catch, ◌>>=◌, finished, try_finally,
}

-- What holds after an outcome.
abbrev pub After : {W A : Type 0} → (A → W → Type 0) → (W → Type 0) → Outcome A → W → Type 0
After Q E (ok a) w = Q a w
After Q E (throw e) w = E w
After Q E stuck w = ⊥

pub record Triple {W A : Type 0} (P : W → Type 0) (m : Act W A) (Q : A → W → Type 0)
    (E : W → Type 0) : Type 0 where
  pub at : (w : W) → P w → After Q E (m w).0 (m w).1

module _ {W A : Type 0} {E : W → Type 0} where
  -- The precondition is that of the value.
  pub Triple-pure : {Q : A → W → Type 0} (a : A) → Triple (Q a) (pure a) Q E
  unfolding pure
  Triple-pure a = record { at = λ w p. p }

  pub Triple-raise : {Q : A → W → Type 0} (e : Thrown) → Triple E (raise e) Q E
  unfolding raise
  Triple-raise e = record { at = λ w p. p }

  pub Triple-lift :
      {P : W → Type 0} {Q : A → W → Type 0} (r : Outcome A)
      → ((w : W) → P w → After Q E r w)
      → Triple P (lift r) Q E
  unfolding lift
  Triple-lift r h = record { at = h }

  pub Triple-if :
      {P : W → Type 0} {Q : A → W → Type 0} (b : Bool) (m n : Act W A)
      → Triple P m Q E
      → Triple P n Q E
      → Triple P (if b then m else n) Q E
  Triple-if true m n t u = t
  Triple-if false m n t u = u

  After-weaken :
      {Q Q' : A → W → Type 0} {E' : W → Type 0} (r : Outcome A) (w : W)
      → ((a : A) (w : W) → Q a w → Q' a w)
      → ((w : W) → E w → E' w)
      → After Q E r w
      → After Q' E' r w
  After-weaken (ok a) w q e h = q a w h
  After-weaken (throw x) w q e h = e w h
  After-weaken stuck w q e h = h

  pub Triple-weaken :
      {P P' : W → Type 0} {Q Q' : A → W → Type 0} {E' : W → Type 0} (m : Act W A)
      → Triple P m Q E
      → ((w : W) → P' w → P w)
      → ((a : A) (w : W) → Q a w → Q' a w)
      → ((w : W) → E w → E' w)
      → Triple P' m Q' E'
  Triple-weaken m t p q e = record { at = λ w h. After-weaken (m w).0 (m w).1 q e (t.at w (p w h)) }

module _ {W A B : Type 0} {E : W → Type 0} where
  continue-After :
      {Q : A → W → Type 0} {R : B → W → Type 0} (r : Outcome A) (f : A → Act W B) (w : W)
      → After Q E r w
      → ((a : A) → Triple (Q a) (f a) R E)
      → After R E (continue r f w).0 (continue r f w).1
  continue-After (ok a) f w h k = (k a).at w h
  continue-After (throw e) f w h k = h
  continue-After stuck f w h k = h

  pub Triple-bind :
      {P : W → Type 0} {Q : A → W → Type 0} {R : B → W → Type 0} (m : Act W A) (f : A → Act W B)
      → Triple P m Q E
      → ((a : A) → Triple (Q a) (f a) R E)
      → Triple P (m >>= f) R E
  unfolding ◌>>=◌
  Triple-bind m f t k = record { at = λ w p. continue-After (m w).0 f (m w).1 (t.at w p) k }

-- What is known before an action, besides its world.
pub Triple-given :
    {A W F : Type 0} {P E : W → Type 0} {Q : A → W → Type 0} {m : Act W A}
    → (F → Triple P m Q E)
    → Triple (λ s. P s × F) m Q E
Triple-given k = record { at = λ s (p, f). (k f).at s p }

-- What holds of a caught action: its postcondition at `none`, that of its errors otherwise.
abbrev pub Caught : {W : Type 0} → (W → Type 0) → (W → Type 0) → Option Thrown → W → Type 0
Caught Q F none w = Q w
Caught Q F (some e) w = F w

caught_outcome-After :
    {W : Type 0} (E Q F : W → Type 0) (r : Outcome (Unit {0})) (w : W)
    → After (λ _. Q) F r w
    → After (Caught Q F) E (caught_outcome r w).0 (caught_outcome r w).1
caught_outcome-After E Q F (ok a) w h = h
caught_outcome-After E Q F (throw e) w h = h
caught_outcome-After E Q F stuck w h = h

module _ {W : Type 0} {E : W → Type 0} where
  pub Triple-caught :
      {P Q F : W → Type 0} (m : Act W (Unit {0}))
      → Triple P m (λ _. Q) F
      → Triple P (caught m) (Caught Q F) E
  unfolding caught
  Triple-caught {Q = Q} {F = F} m t = record {
    at = λ w p. caught_outcome-After E Q F (m w).0 (m w).1 (t.at w p);
  }

module _ {W A : Type 0} {E : W → Type 0} where
  handled-After :
      {F : W → Type 0} {Q : A → W → Type 0} (r : Outcome A) (handler : Thrown → Act W A) (w : W)
      → After Q F r w
      → ((e : Thrown) → Triple F (handler e) Q E)
      → After Q E (handled r handler w).0 (handled r handler w).1
  handled-After (ok a) handler w h k = h
  handled-After (throw e) handler w h k = (k e).at w h
  handled-After stuck handler w h k = h

  pub Triple-try_catch :
      {P F : W → Type 0} {Q : A → W → Type 0} (m : Act W A) (handler : Thrown → Act W A)
      → Triple P m Q F
      → ((e : Thrown) → Triple F (handler e) Q E)
      → Triple P (try_catch m handler) Q E
  unfolding try_catch
  Triple-try_catch m handler t k = record {
    at = λ w p. handled-After (m w).0 handler (m w).1 (t.at w p) k;
  }

module _ {W A : Type 0} {E : W → Type 0} where
  finished-After :
      {F : W → Type 0} {M Q : A → W → Type 0} (r : Outcome A) (after : Act W (Unit {0})) (w : W)
      → After M F r w
      → ((a : A) → Triple (M a) after (λ _. Q a) E)
      → Triple F after (λ _. E) E
      → After Q E (finished r after w).0 (finished r after w).1
  finished-After (ok a) after w h k l = (Triple-bind after _ (k a) λ _. Triple-pure a).at w h
  finished-After {Q = Q} (throw e) after w h k l =
      (Triple-bind {R = Q} after _ l λ _. Triple-raise e).at w h
  finished-After stuck after w h k l = elim h [ ]

  pub Triple-try_finally :
      {P F : W → Type 0} {M Q : A → W → Type 0} (m : Act W A) (after : Act W (Unit {0}))
      → Triple P m M F
      → ((a : A) → Triple (M a) after (λ _. Q a) E)
      → Triple F after (λ _. E) E
      → Triple P (try_finally m after) Q E
  unfolding try_finally
  Triple-try_finally m after t k l = record {
    at = λ w p. finished-After (m w).0 after (m w).1 (t.at w p) k l;
  }
