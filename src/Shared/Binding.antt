-- ===== src/Shared/Binding.antt =====
-- The laws of the bind, at each world.
use mathlib.Core.Path.{◌≡◌, refl}
use posta.Shared.Thrown.{Thrown}
use posta.Shared.Effects.{Outcome, ok, throw, stuck, Act, pure, lift, continue, ◌>>=◌, bind_outcome}
use posta.Shared.Tests.{if◌then◌else◌}
use mathlib.Core.Bool.{Bool, true, false}

module _ {W A B C : Type 0} where
  continue_assoc :
      (r : Outcome A) (f : A → Act W B) (g : B → Act W C) (w : W)
      → continue (continue r f w).0 g (continue r f w).1 ≡ continue r (λ a. f a >>= g) w
  unfolding ◌>>=◌
  continue_assoc (ok a) f g w = refl
  continue_assoc (throw e) f g w = refl
  continue_assoc stuck f g w = refl

  pub bind_assoc :
      (m : Act W A) (f : A → Act W B) (g : B → Act W C) (w : W)
      → ((m >>= f) >>= g) w ≡ (m >>= λ a. f a >>= g) w
  unfolding ◌>>=◌
  bind_assoc m f g w = continue_assoc (m w).0 f g (m w).1

module _ {W A B : Type 0} where
  pub pure-bind : (a : A) (f : A → Act W B) (w : W) → (pure a >>= f) w ≡ f a w
  unfolding ◌>>=◌ pure
  pure-bind a f w = refl

  pub lift-bind : (a : A) (f : A → Act W B) (w : W) → (lift (ok a) >>= f) w ≡ f a w
  unfolding ◌>>=◌ lift
  lift-bind a f w = refl

  continue_cong :
      (r : Outcome A) (f g : A → Act W B) (w : W)
      → ((a : A) (w : W) → f a w ≡ g a w)
      → continue r f w ≡ continue r g w
  continue_cong (ok a) f g w h = h a w
  continue_cong (throw e) f g w h = refl
  continue_cong stuck f g w h = refl

  -- Two actions that go on alike from each value are alike.
  pub bind_cong :
      (m : Act W A) (f g : A → Act W B) (w : W)
      → ((a : A) (w : W) → f a w ≡ g a w)
      → (m >>= f) w ≡ (m >>= g) w
  unfolding ◌>>=◌
  bind_cong m f g w h = continue_cong (m w).0 f g (m w).1 h

module _ {W A : Type 0} where
  continue-pure : (r : Outcome A) (w : W) → continue r pure w ≡ (r, w)
  unfolding pure
  continue-pure (ok a) w = refl
  continue-pure (throw e) w = refl
  continue-pure stuck w = refl

  pub bind-pure : (m : Act W A) (w : W) → (m >>= pure) w ≡ m w
  unfolding ◌>>=◌
  bind-pure m w = continue-pure (m w).0 (m w).1

-- Code that waits for nothing comes to an end where its parts do.
module _ {A B : Type 0} where
  pub bind_outcome-ends :
      (r : Outcome A) (f : A → Outcome B)
      → (r ≡ stuck → ⊥)
      → ((a : A) → f a ≡ stuck → ⊥)
      → bind_outcome r f ≡ stuck
      → ⊥
  bind_outcome-ends (ok a) f h k e = k a e
  bind_outcome-ends (throw x) f h k e = cc
  bind_outcome-ends stuck f h k e = h refl

  -- A result that is at hand was given by each part.
  pub bind_outcome-ok :
      (r : Outcome A) (f : A → Outcome B) (b : B)
      → bind_outcome r f ≡ ok b
      → (a : A) × (r ≡ ok a) × (f a ≡ ok b)
  bind_outcome-ok (ok a) f b h = (a, refl, h)
  bind_outcome-ok (throw e) f b h = cc
  bind_outcome-ok stuck f b h = cc

pub if_throw-inv :
    {A : Type 0} (b : Bool) (e : Thrown) (r : Outcome A) (a : A)
    → (if b then throw e else r) ≡ ok a
    → (b ≡ false) × (r ≡ ok a)
if_throw-inv true e r a h = cc
if_throw-inv false e r a h = (refl, h)

pub ok-inv : {A : Type 0} (a b : A) → ok a ≡ ok b → a ≡ b
ok-inv a b h = cc

pub if-ends :
    {A : Type 0} (b : Bool) (x y : Outcome A)
    → (x ≡ stuck → ⊥)
    → (y ≡ stuck → ⊥)
    → (if b then x else y) ≡ stuck
    → ⊥
if-ends true x y h k e = h e
if-ends false x y h k e = k e
