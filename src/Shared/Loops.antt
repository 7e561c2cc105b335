-- ===== src/Shared/Loops.antt =====
-- A loop over a list, what it does to the parts of one, and the rule for its invariants.
use mathlib.Core.Path.{◌≡◌, refl, sym, ◌∙◌, subst}
use mathlib.Core.List.{List, [], ◌∷◌, ◌++◌, append-nil, append_assoc}
use posta.Shared.Effects.{Act, pure, ◌>>◌}
use posta.Shared.Binding.{bind_cong, bind_assoc, pure-bind}
use posta.Shared.Triples.{Triple, Triple-pure, Triple-bind}

-- `for (const x of xs) body(x)`
module _ {W A : Type 0} where
  unfoldable pub for_each : (A → Act W (Unit {0})) → List A → Act W (Unit {0})
  for_each body [] = pure tt
  for_each body (a ∷ rest) = do body a; for_each body rest

module _ {W A : Type 0} (body : A → Act W (Unit {0})) where
  pub for_each-append :
      (xs ys : List A) (w : W)
      → for_each body (xs ++ ys) w ≡ (do for_each body xs; for_each body ys) w
  unfolding for_each
  for_each-append [] ys w = sym (pure-bind tt (λ _. for_each body ys) w)
  for_each-append (x ∷ xs) ys w =
      bind_cong (body x) _ _ w (λ _ v. for_each-append xs ys v)
      ∙ sym (bind_assoc (body x) (λ _. for_each body xs) (λ _. for_each body ys) w)

-- The rule for a loop: an invariant of the part that is done, with the whole list at hand.
module _ {W A : Type 0} {E : W → Type 0} (I : List A → W → Type 0) (body : A → Act W (Unit {0}))
    (all : List A)
    (keeps : (done : List A) (a : A) (rest : List A)
      → all ≡ done ++ a ∷ rest
      → Triple (I done) (body a) (λ _. I (done ++ a ∷ [])) E) where
  loop-Triple :
      (done xs : List A) → all ≡ done ++ xs → Triple (I done) (for_each body xs) (λ _. I all) E
  unfolding for_each
  loop-Triple done [] e =
      subst (λ d. Triple (I d) (for_each body []) (λ _. I all) E) (e ∙ append-nil done)
        (Triple-pure tt)
  loop-Triple done (x ∷ xs) e =
      Triple-bind _ _ (keeps done x xs e)
        λ _. loop-Triple (done ++ x ∷ []) xs (e ∙ sym (append_assoc done (x ∷ []) xs))

  pub for_each-Triple : Triple (I []) (for_each body all) (λ _. I all) E
  for_each-Triple = loop-Triple [] all refl
