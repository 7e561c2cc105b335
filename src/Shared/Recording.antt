-- ===== src/Shared/Recording.antt =====
-- A world that records each call of a collaborator with its answer, the latest first. What a call answers
-- is decided from all that happened before.
use mathlib.Core.Logic.{inl, inr}
use mathlib.Core.Option.{Option, none, some}
use mathlib.Core.List.{List, ◌∷◌}
use posta.Shared.Tests.{Option-cases}
use posta.Shared.Thrown.{Thrown}
use posta.Shared.Effects.{Outcome, ok, throw, Act}
use posta.Shared.Triples.{Triple}

-- `none` is success.
abbrev pub Entry : Type 0 → Type 0
Entry C = C × Option Thrown

abbrev pub History : Type 0 → Type 0
History C = List (Entry C)

abbrev pub reply : {A : Type 0} → Option Thrown → A → Outcome A
reply none a = ok a
reply (some e) a = throw e

module _ {C A : Type 0} (fails : History C → C → Option Thrown) (c : C) (a : History C → A) where
  abbrev pub call : Act (History C) A
  call h = (reply (fails h c) (a h), (c, fails h c) ∷ h)

  -- A call leaves what its answer makes of the history.
  pub call-Triple :
      {P E : History C → Type 0} {Q : A → History C → Type 0}
      → ((h : History C) → P h → Q (a h) ((c, none) ∷ h))
      → ((h : History C) (e : Thrown) → P h → E ((c, some e) ∷ h))
      → Triple P call Q E
  call-Triple q e = record {
    at = λ h p. elim (Option-cases (fails h c)) [
      | inl n ↦ rw n (q h p)
      | inr (x, n) ↦ rw n (e h x p)
    ];
  }
