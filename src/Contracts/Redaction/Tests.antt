-- ===== src/Contracts/Redaction/Tests.antt =====
-- A payload that holds itself, with a cookie in a list.
use posta.Shared.{◌≡◌, refl, ℕ, zero, suc, String, [], ◌∷◌}
use posta.Shared.Text.{show, digits}
use posta.Contracts.Redaction.{
  text, primitive, reference, array, object, Heap, leaf, items, fields, no_items, item, no_fields,
  field, is_forbidden_key, build_property_path, build_index_path, redact_items, redact_fields,
  redact_node, redact_forbidden_keys,
}
use posta.Contracts.Redaction.Forbidden.{Agree, redact_forbidden_keys-Agree}
use posta.Contracts.Redaction.Placeholders.{IsRedacted, redact_forbidden_keys-IsRedacted}

abbrev payload : String → Heap
payload secret zero =
    object (("list", reference 1) ∷ ("self", reference 0) ∷ ("IP", primitive (text secret)) ∷ [])
payload secret (suc zero) = array (reference 2 ∷ [])
payload secret (suc (suc n)) = object (("Cookie", primitive (text secret)) ∷ [])

redacted : redact_forbidden_keys (payload "s") (reference 0) ≡ (
  fields (
      field "list"
        (items (item (fields (field "Cookie" (leaf (text "[REDACTED]")) no_fields)) no_items))
        (field "self"
          (leaf (text "[CIRCULAR_REFERENCE]"))
          (field "IP" (leaf (text "[REDACTED]")) no_fields))),
  "list[0].Cookie" ∷ "IP" ∷ [],
)
unfolding redact_forbidden_keys redact_node redact_items redact_fields is_forbidden_key
    build_property_path build_index_path show digits
redacted = refl

payload-Agree : (address : ℕ) → Agree (payload "a" address) (payload "b" address)
unfolding is_forbidden_key
payload-Agree zero = (refl, λ _. refl, (refl, λ _. refl, (refl, λ h. cc, tt)))
payload-Agree (suc zero) = refl
payload-Agree (suc (suc n)) = (refl, λ h. cc, tt)

redact_forbidden_keys-Agree_example :
    redact_forbidden_keys (payload "a") (reference 0)
    ≡ redact_forbidden_keys (payload "b") (reference 0)
redact_forbidden_keys-Agree_example =
    redact_forbidden_keys-Agree (payload "a") (payload "b") payload-Agree (reference 0)

redact_forbidden_keys-IsRedacted_example :
    IsRedacted 50
      (redact_forbidden_keys (payload "s") (reference 0)).0
      (redact_forbidden_keys (payload "s") (reference 0)).1
redact_forbidden_keys-IsRedacted_example =
    redact_forbidden_keys-IsRedacted (payload "s") (reference 0)
