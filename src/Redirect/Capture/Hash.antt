-- ===== src/Redirect/Capture/Hash.antt =====
-- A visitor's hash is computed or refused.
use posta.Shared.{◌≡◌, String, Bool, true, false, Option, or_else, if◌then◌else◌, Outcome, stuck}
use posta.Shared.Text.{includes}
use posta.Redirect.Capture.{compute_visitor_hash, visitor_hash_delimiter}

if_ends :
    {A : Type 0} (b : Bool) (x y : Outcome A)
    → (x ≡ stuck → ⊥)
    → (y ≡ stuck → ⊥)
    → (if b then x else y) ≡ stuck
    → ⊥
if_ends true x y h k e = h e
if_ends false x y h k e = k e

pub compute_visitor_hash-ends :
    (sha256 : String → String) (ip : String) (user_agent : Option String) (salt : String)
    → compute_visitor_hash sha256 ip user_agent salt ≡ stuck
    → ⊥
unfolding compute_visitor_hash
compute_visitor_hash-ends sha256 ip user_agent salt =
    if_ends (includes ip visitor_hash_delimiter) _ _ (λ e. cc)
      (if_ends (includes (or_else user_agent "") visitor_hash_delimiter) _ _ (λ e. cc)
        (if_ends (includes salt visitor_hash_delimiter) _ _ (λ e. cc) (λ e. cc)))
