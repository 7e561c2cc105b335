-- ===== src/Contracts/Redaction/Forbidden.antt =====
-- What stands under a forbidden key does not come out, and has no part in what does.
use posta.Shared.{
  ◌≡◌, refl, sym, ℕ, zero, suc, ◌+◌, String, false, List, [], ◌∷◌, Bool-cases, inl, inr,
}
use posta.Contracts.Redaction.{
  is_forbidden_key, build_property_path, build_index_path, max_redaction_depth, Value, primitive,
  reference, Node, array, object, Heap, Redactor, redact_items, redact_field, redact_fields,
  redact_contents, redact_node, redact_forbidden_keys,
}

-- Two objects with the same keys, and the same values under those that are not forbidden.
abbrev pub AgreeFields : List (String × Value) → List (String × Value) → Type 0
AgreeFields [] [] = Unit {0}
AgreeFields [] (e ∷ es) = ⊥
AgreeFields (d ∷ ds) [] = ⊥
AgreeFields ((key, value) ∷ ds) ((key', value') ∷ es) =
    (key ≡ key') × (is_forbidden_key key ≡ false → value ≡ value') × AgreeFields ds es

abbrev pub Agree : Node → Node → Type 0
Agree (array vs) (array ws) = vs ≡ ws
Agree (array vs) (object es) = ⊥
Agree (object ds) (array ws) = ⊥
Agree (object ds) (object es) = AgreeFields ds es

abbrev Same : Redactor → Redactor → Type 0
Same f g = (value : Value) (path : String) → f value path ≡ g value path

redact_items-Same :
    (f g : Redactor)
    → Same f g
    → (path : String) (index : ℕ) (values : List Value)
    → redact_items f path index values ≡ redact_items g path index values
unfolding redact_items
redact_items-Same f g e path index [] = refl
redact_items-Same f g e path index (value ∷ values) =
    rw (e value (build_index_path path index), redact_items-Same f g e path (index + 1) values) refl

redact_field-Same :
    (f g : Redactor)
    → Same f g
    → (path key : String) (v w : Value) → (is_forbidden_key key ≡ false → v ≡ w)
    → redact_field f path key v ≡ redact_field g path key w
redact_field-Same f g e path key v w h = elim (Bool-cases (is_forbidden_key key)) [
  | inl b ↦ rw b refl
  | inr b ↦ rw (b, h b) (e w (build_property_path path key))
]

redact_fields-Same :
    (f g : Redactor)
    → Same f g
    → (path : String) (ds es : List (String × Value)) → AgreeFields ds es
    → redact_fields f path ds ≡ redact_fields g path es
unfolding redact_fields
redact_fields-Same f g e path [] [] a = refl
redact_fields-Same f g e path [] (d ∷ es) a = elim a [ ]
redact_fields-Same f g e path ((k, v) ∷ ds) [] a = elim a [ ]
redact_fields-Same f g e path ((k, v) ∷ ds) ((k', v') ∷ es) (p, h, a) =
    rw (sym p, redact_field-Same f g e path k v v' h, redact_fields-Same f g e path ds es a) refl

redact_contents-Same :
    (f g : Redactor)
    → Same f g
    → (path : String) (m n : Node) → Agree m n
    → redact_contents f path m ≡ redact_contents g path n
redact_contents-Same f g e path (array vs) (array ws) a =
    rw (a, redact_items-Same f g e path 0 ws) refl
redact_contents-Same f g e path (array vs) (object es) a = elim a [ ]
redact_contents-Same f g e path (object ds) (array ws) a = elim a [ ]
redact_contents-Same f g e path (object ds) (object es) a =
    rw (redact_fields-Same f g e path ds es a) refl

module _ (heap heap' : Heap) (agree : (address : ℕ) → Agree (heap address) (heap' address)) where
  redact_node-Same :
      (left : ℕ) (ancestors : List ℕ)
      → Same (redact_node heap left ancestors) (redact_node heap' left ancestors)
  unfolding redact_node
  redact_node-Same left ancestors (primitive p) path = refl
  redact_node-Same zero ancestors (reference address) path = refl
  redact_node-Same (suc left) ancestors (reference address) path =
      rw
        (redact_contents-Same (redact_node heap left (address ∷ ancestors))
          (redact_node heap' left (address ∷ ancestors))
          (redact_node-Same left (address ∷ ancestors)) path (heap address) (heap' address)
          (agree address))
        refl

  -- Payloads that differ only in what stands under forbidden keys, wherever it stands, are redacted to the same value
  -- with the same list of redacted keys: nothing under a forbidden key has a part in what comes out.
  pub redact_forbidden_keys-Agree :
      (value : Value) → redact_forbidden_keys heap value ≡ redact_forbidden_keys heap' value
  unfolding redact_forbidden_keys
  redact_forbidden_keys-Agree value = redact_node-Same max_redaction_depth [] value ""
