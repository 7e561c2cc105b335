-- ===== src/Shared/Chars.antt =====
-- Texts of which every character passes a test on its number.
use Prim.Native.Nat.{ℕ, zero, suc}
use Prim.Native.Char.{code}
use Prim.Native.String
use Prim.Native.String.append
use mathlib.Core.Path.{◌≡◌, refl}
use mathlib.Core.Bool.{Bool, true, false, ◌&&◌}
use mathlib.Core.List.{List, [], ◌∷◌}
use native.Mathlib.Omega.{arith}
use posta.Shared.Tests.{if◌then◌else◌}
use posta.Shared.Lists.{all}
use posta.Shared.Text.{concat, nth}

module _ (p : ℕ → Bool) where
  abbrev pub every : String.String → Bool
  every String.[] = true
  every (String.◌∷◌ c s) = p (code c) && every s

  pub every-append :
      (s t : String.String) → every s ≡ true → every t ≡ true → every (String.◌++◌ s t) ≡ true
  every-append String.[] t h k = rw (append.nil t) k
  every-append (String.◌∷◌ c s) t h k =
      rw (append.cons c s t, every-append s t (ground arith) k) (ground arith)

  pub every-concat : (ss : List String.String) → all every ss ≡ true → every (concat ss) ≡ true
  every-concat [] h = refl
  every-concat (s ∷ ss) h =
      every-append s (concat ss) (ground arith) (every-concat ss (ground arith))

  pub every-nth : (ss : List String.String) (n : ℕ) → all every ss ≡ true → every (nth ss n) ≡ true
  every-nth [] n h = refl
  every-nth (s ∷ ss) zero h = ground arith
  every-nth (s ∷ ss) (suc n) h = every-nth ss n (ground arith)

  pub every-if :
      (b : Bool) (s t : String.String)
      → every s ≡ true
      → every t ≡ true
      → every (if b then s else t) ≡ true
  every-if true s t h k = h
  every-if false s t h k = k
