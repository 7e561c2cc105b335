-- ===== src/Shared/Rules.antt =====
-- What holds of an action whatever the world, one rule for each way to build an action.
use mathlib.Core.Path.{◌≡◌, refl, subst}
use mathlib.Core.Option.{none, some}
use posta.Shared.Thrown.{Thrown}
use posta.Shared.Effects.{
  Outcome, ok, throw, stuck, Act, pure, raise, no_fuel, lift, caught, caught_outcome, continue,
  ◌>>=◌,
}

-- Where the action returns, its value has the property.
pub record Yields {W A : Type 0} (P : A → Type 0) (m : Act W A) : Type 0 where
  pub at : (w : W) (a : A) → (m w).0 ≡ ok a → P a

-- The action returns, with a value that has the property.
pub record Gives {W A : Type 0} (P : A → Type 0) (m : Act W A) : Type 0 where
  pub at : (w : W) → (a : A) × ((m w).0 ≡ ok a) × P a

-- The action throws, and the error has the property.
pub record Throws {W A : Type 0} (P : Thrown → Type 0) (m : Act W A) : Type 0 where
  pub at : (w : W) → (e : Thrown) × ((m w).0 ≡ throw e) × P e

-- The action comes to an end.
pub record Ends {W A : Type 0} (m : Act W A) : Type 0 where
  pub at : (w : W) → (m w).0 ≡ stuck → ⊥

-- The action keeps a property of the world, whether it returns or throws.
pub record Keeps {W A : Type 0} (I : W → Type 0) (m : Act W A) : Type 0 where
  pub at : (w : W) → I w → I (m w).1

module _ {W A : Type 0} {I : W → Type 0} where
  pub Keeps-pure : (a : A) → Keeps I (pure a)
  unfolding pure
  Keeps-pure a = record { at = λ w i. i }

  pub Keeps-raise : (e : Thrown) → Keeps I (raise {A = A} e)
  unfolding raise
  Keeps-raise e = record { at = λ w i. i }

  pub Keeps-lift : (r : Outcome A) → Keeps I (lift r)
  unfolding lift
  Keeps-lift r = record { at = λ w i. i }

  pub Keeps-no_fuel : Keeps I (no_fuel {A = A})
  unfolding no_fuel
  Keeps-no_fuel = record { at = λ w i. i }

module _ {W A B : Type 0} {I : W → Type 0} where
  continue-Keeps :
      (r : Outcome A) (f : A → Act W B) → ((a : A) → Keeps I (f a)) → Keeps I (continue r f)
  continue-Keeps (ok a) f k = record { at = (k a).at }
  continue-Keeps (throw e) f k = record { at = λ w i. i }
  continue-Keeps stuck f k = record { at = λ w i. i }

  pub Keeps-bind :
      (m : Act W A) (f : A → Act W B) → Keeps I m → ((a : A) → Keeps I (f a)) → Keeps I (m >>= f)
  unfolding ◌>>=◌
  Keeps-bind m f km kf = record { at = λ w i. (continue-Keeps (m w).0 f kf).at (m w).1 (km.at w i) }

module _ {W : Type 0} {I : W → Type 0} where
  caught_outcome-Keeps : (r : Outcome (Unit {0})) → Keeps I (caught_outcome r)
  caught_outcome-Keeps (ok a) = record { at = λ w i. i }
  caught_outcome-Keeps (throw e) = record { at = λ w i. i }
  caught_outcome-Keeps stuck = record { at = λ w i. i }

  pub Keeps-caught : (m : Act W (Unit {0})) → Keeps I m → Keeps I (caught m)
  unfolding caught
  Keeps-caught m k = record { at = λ w i. (caught_outcome-Keeps (m w).0).at (m w).1 (k.at w i) }

module _ {W A : Type 0} where
  pub Yields-pure : {P : A → Type 0} (a : A) → P a → Yields P (pure {W = W} a)
  unfolding pure
  Yields-pure {P} a p = record { at = λ w b h. subst P (cc) p }

  pub Gives-pure : {P : A → Type 0} (a : A) → P a → Gives P (pure {W = W} a)
  unfolding pure
  Gives-pure a p = record { at = λ w. (a, refl, p) }

  pub Gives-lift : (r : Outcome A) {a : A} → r ≡ ok a → Gives (λ b. b ≡ a) (lift {W = W} r)
  unfolding lift
  Gives-lift r {a} e = record { at = λ w. (a, e, refl) }

  pub Ends-pure : (a : A) → Ends (pure {W = W} a)
  unfolding pure
  Ends-pure a = record { at = λ w h. cc }

  pub Ends-lift : (r : Outcome A) → (r ≡ stuck → ⊥) → Ends (lift {W = W} r)
  unfolding lift
  Ends-lift r h = record { at = λ w. h }

  pub Yields-raise : {P : A → Type 0} (e : Thrown) → Yields P (raise {W = W} e)
  unfolding raise
  Yields-raise e = record { at = λ w b h. cc }

  pub Yields-no_fuel : {P : A → Type 0} → Yields P (no_fuel {W = W} {A = A})
  unfolding no_fuel
  Yields-no_fuel = record { at = λ w b h. cc }

  pub Throws-raise : {P : Thrown → Type 0} (e : Thrown) → P e → Throws P (raise {W = W} {A = A} e)
  unfolding raise
  Throws-raise e p = record { at = λ w. (e, refl, p) }

  pub Ends-raise : (e : Thrown) → Ends (raise {W = W} {A = A} e)
  unfolding raise
  Ends-raise e = record { at = λ w h. cc }

module _ {W A B : Type 0} where
  continue-Yields :
      {Q : A → Type 0} {P : B → Type 0} (r : Outcome A) (f : A → Act W B) (w : W)
      → ((a : A) → r ≡ ok a → Q a)
      → ((a : A) → Q a → Yields P (f a))
      → (b : B) → (continue r f w).0 ≡ ok b
      → P b
  continue-Yields (ok a) f w q k b h = (k a (q a refl)).at w b h
  continue-Yields (throw e) f w q k b h = cc
  continue-Yields stuck f w q k b h = cc

  pub Yields-bind :
      {Q : A → Type 0} {P : B → Type 0} (m : Act W A) (f : A → Act W B)
      → Yields Q m
      → ((a : A) → Q a → Yields P (f a))
      → Yields P (m >>= f)
  unfolding ◌>>=◌
  Yields-bind m f q k = record { at = λ w. continue-Yields (m w).0 f (m w).1 (q.at w) k }

  -- The rule where nothing is asked of the first action.
  pub Yields-then :
      {P : B → Type 0} (m : Act W A) (f : A → Act W B)
      → ((a : A) → Yields P (f a))
      → Yields P (m >>= f)
  Yields-then m f k = Yields-bind {Q = λ _. Unit {0}} m f (record { at = λ w a h. tt }) (λ a _. k a)

  pub Gives-bind :
      {Q : A → Type 0} {P : B → Type 0} (m : Act W A) (f : A → Act W B)
      → Gives Q m
      → ((a : A) → Q a → Gives P (f a))
      → Gives P (m >>= f)
  unfolding ◌>>=◌
  Gives-bind m f g k = record {
    at = λ w. let (a, e, q) = g.at w in let (b, h, p) = (k a q).at (m w).1 in (b, rw e h, p);
  }

  pub Throws-bind :
      {Q : A → Type 0} {P : Thrown → Type 0} (m : Act W A) (f : A → Act W B)
      → Gives Q m
      → ((a : A) → Q a → Throws P (f a))
      → Throws P (m >>= f)
  unfolding ◌>>=◌
  Throws-bind m f g k = record {
    at = λ w. let (a, e, q) = g.at w in let (b, h, p) = (k a q).at (m w).1 in (b, rw e h, p);
  }

  pub Throws-first :
      {P : Thrown → Type 0} (m : Act W A) (f : A → Act W B) → Throws P m → Throws P (m >>= f)
  unfolding ◌>>=◌
  Throws-first m f t = record { at = λ w. let (e, h, p) = t.at w in (e, rw h, p) }

  continue-Ends :
      (r : Outcome A) (f : A → Act W B) (w : W)
      → (r ≡ stuck → ⊥)
      → ((a : A) → Ends (f a))
      → (continue r f w).0 ≡ stuck
      → ⊥
  continue-Ends (ok a) f w q k h = (k a).at w h
  continue-Ends (throw e) f w q k h = cc
  continue-Ends stuck f w q k h = q refl

  pub Ends-bind : (m : Act W A) (f : A → Act W B) → Ends m → ((a : A) → Ends (f a)) → Ends (m >>= f)
  unfolding ◌>>=◌
  Ends-bind m f e k = record { at = λ w. continue-Ends (m w).0 f (m w).1 (e.at w) k }

module _ {W : Type 0} where
  caught_outcome-Ends :
      (r : Outcome (Unit {0})) (w : W) → (r ≡ stuck → ⊥) → (caught_outcome r w).0 ≡ stuck → ⊥
  caught_outcome-Ends (ok a) w q h = cc
  caught_outcome-Ends (throw e) w q h = cc
  caught_outcome-Ends stuck w q h = q refl

  pub Ends-caught : (m : Act W (Unit {0})) → Ends m → Ends (caught m)
  unfolding caught
  Ends-caught m e = record { at = λ w. caught_outcome-Ends (m w).0 (m w).1 (e.at w) }

  pub Gives-caught_throw :
      {P : Thrown → Type 0} (m : Act W (Unit {0}))
      → Throws P m
      → Gives (λ o. (e : Thrown) × (o ≡ some e) × P e) (caught m)
  unfolding caught
  Gives-caught_throw m t = record {
    at = λ w. let (e, h, p) = t.at w in (some e, rw h, (e, refl, p));
  }

  pub Gives-caught_ok :
      (m : Act W (Unit {0})) → Gives (λ _. Unit {0}) m → Gives (λ o. o ≡ none) (caught m)
  unfolding caught
  Gives-caught_ok m g = record { at = λ w. let (a, h, _) = g.at w in (none, rw h, refl) }
