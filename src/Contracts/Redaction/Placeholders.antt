-- ===== src/Contracts/Redaction/Placeholders.antt =====
-- What comes out has the placeholder under each forbidden key, is no deeper than the bound, and the list of paths has one
-- for each placeholder of a key.
use posta.Shared.{
  ◌≡◌, refl, sym, ap₂, ◌∙◌, arith, ℕ, zero, suc, ◌+◌, String, true, false, List, [], ◌∷◌, any,
  length, length-append, if◌then◌else◌, ◌==◌, Bool-cases, inl, inr,
}
use posta.Contracts.Redaction.{
  secret_redaction_placeholder, is_forbidden_key, build_property_path, build_index_path,
  max_redaction_depth, Primitive, text, Value, primitive, reference, Node, array, object, Heap,
  Redacted, leaf, items, fields, Items, no_items, item, Fields, no_fields, field, Redactor,
  redact_items, redact_field, redact_fields, redact_contents, redact_node, redact_forbidden_keys,
}

mutual
  -- Under a forbidden key stands the placeholder.
  pub IsSafe : Redacted → Type 0
  IsSafe (leaf p) = Unit {0}
  IsSafe (items is) = IsSafeItems is
  IsSafe (fields fs) = IsSafeFields fs

  IsSafeItems : Items → Type 0
  IsSafeItems no_items = Unit {0}
  IsSafeItems (item r is) = IsSafe r × IsSafeItems is

  IsSafeFields : Fields → Type 0
  IsSafeFields no_fields = Unit {0}
  IsSafeFields (field key r fs) =
      (is_forbidden_key key ≡ true → r ≡ leaf (text secret_redaction_placeholder))
      × IsSafe r
      × IsSafeFields fs

-- At most so many objects stand within each other.
mutual
  pub IsWithin : ℕ → Redacted → Type 0
  IsWithin n (leaf p) = Unit {0}
  IsWithin zero (items is) = ⊥
  IsWithin (suc n) (items is) = IsWithinItems n is
  IsWithin zero (fields fs) = ⊥
  IsWithin (suc n) (fields fs) = IsWithinFields n fs

  IsWithinItems : ℕ → Items → Type 0
  IsWithinItems n no_items = Unit {0}
  IsWithinItems n (item r is) = IsWithin n r × IsWithinItems n is

  IsWithinFields : ℕ → Fields → Type 0
  IsWithinFields n no_fields = Unit {0}
  IsWithinFields n (field key r fs) = IsWithin n r × IsWithinFields n fs

-- How many forbidden keys there are.
mutual
  pub forbidden_count : Redacted → ℕ
  forbidden_count (leaf p) = 0
  forbidden_count (items is) = forbidden_items is
  forbidden_count (fields fs) = forbidden_fields fs

  forbidden_items : Items → ℕ
  forbidden_items no_items = 0
  forbidden_items (item r is) = forbidden_count r + forbidden_items is

  forbidden_fields : Fields → ℕ
  forbidden_fields no_fields = 0
  forbidden_fields (field key r fs) =
      (if is_forbidden_key key then 1 else 0) + forbidden_count r + forbidden_fields fs

-- A value that was redacted, with the paths.
pub record IsRedacted (depth : ℕ) (out : Redacted) (keys : List String) : Type 0 where
  pub safe : IsSafe out
  pub within : IsWithin depth out
  pub listed : length keys ≡ forbidden_count out

record IsRedactedItems (depth : ℕ) (out : Items) (keys : List String) : Type 0 where
  safe : IsSafeItems out
  within : IsWithinItems depth out
  listed : length keys ≡ forbidden_items out

record IsRedactedFields (depth : ℕ) (out : Fields) (keys : List String) : Type 0 where
  safe : IsSafeFields out
  within : IsWithinFields depth out
  listed : length keys ≡ forbidden_fields out

module _ (depth : ℕ) (redact : Redactor)
    (redacts : (value : Value) (path : String)
      → IsRedacted depth (redact value path).0 (redact value path).1) where
  redact_items-IsRedactedItems :
      (path : String) (index : ℕ) (values : List Value)
      → IsRedactedItems depth
          (redact_items redact path index values).0
          (redact_items redact path index values).1
  unfolding redact_items IsSafe IsWithin forbidden_count
  redact_items-IsRedactedItems path index [] = record { safe = tt; within = tt; listed = refl }
  redact_items-IsRedactedItems path index (value ∷ values) =
      let r = redacts value (build_index_path path index) in
      let rs = redact_items-IsRedactedItems path (index + 1) values in
      record {
        safe = (r.safe, rs.safe);
        within = (r.within, rs.within);
        listed = length-append _ _ ∙ ap₂ (λ a b. a + b) r.listed rs.listed;
      }

  -- The value of one key, forbidden or not.
  record IsRedactedField (key : String) (out : Redacted) (keys : List String) : Type 0 where
    hidden : is_forbidden_key key ≡ true → out ≡ leaf (text secret_redaction_placeholder)
    safe : IsSafe out
    within : IsWithin depth out
    listed : length keys ≡ (if is_forbidden_key key then 1 else 0) + forbidden_count out

  redact_field-IsRedactedField :
      (path key : String) (value : Value)
      → IsRedactedField key
          (redact_field redact path key value).0
          (redact_field redact path key value).1
  unfolding IsSafe IsWithin forbidden_count
  redact_field-IsRedactedField path key value = elim (Bool-cases (is_forbidden_key key)) [
    | inl e ↦ rw e (record { hidden = λ _. refl; safe = tt; within = tt; listed = rw e refl })
    | inr e ↦
        let r = redacts value (build_property_path path key) in
        rw e (record {
          hidden = λ h. let no : true ≡ false = sym h ∙ e in cc;
          safe = r.safe;
          within = r.within;
          listed = rw e (omega (arith, r.listed));
        })
  ]

  redact_fields-IsRedactedFields :
      (path : String) (entries : List (String × Value))
      → IsRedactedFields depth
          (redact_fields redact path entries).0
          (redact_fields redact path entries).1
  unfolding redact_fields IsSafe IsWithin forbidden_count
  redact_fields-IsRedactedFields path [] = record { safe = tt; within = tt; listed = refl }
  redact_fields-IsRedactedFields path ((key, value) ∷ rest) =
      let r = redact_field-IsRedactedField path key value in
      let rs = redact_fields-IsRedactedFields path rest in
      record {
        safe = (r.hidden, r.safe, rs.safe);
        within = (r.within, rs.within);
        listed = length-append _ _ ∙ ap₂ (λ a b. a + b) r.listed rs.listed;
      }

  redact_contents-IsRedacted :
      (path : String) (node : Node)
      → IsRedacted
          (suc depth)
          (redact_contents redact path node).0
          (redact_contents redact path node).1
  unfolding IsSafe IsWithin forbidden_count
  redact_contents-IsRedacted path (array values) =
      let r = redact_items-IsRedactedItems path 0 values in
      record { safe = r.safe; within = r.within; listed = r.listed }
  redact_contents-IsRedacted path (object entries) =
      let r = redact_fields-IsRedactedFields path entries in
      record { safe = r.safe; within = r.within; listed = r.listed }

IsRedacted-leaf : (depth : ℕ) (p : Primitive) → IsRedacted depth (leaf p) []
unfolding IsSafe IsWithin forbidden_count
IsRedacted-leaf depth p = record { safe = tt; within = tt; listed = refl }

module _ (heap : Heap) where
  redact_node-IsRedacted :
      (left : ℕ) (ancestors : List ℕ) (value : Value) (path : String)
      → IsRedacted left
          (redact_node heap left ancestors value path).0
          (redact_node heap left ancestors value path).1
  unfolding redact_node
  redact_node-IsRedacted left ancestors (primitive p) path = IsRedacted-leaf left p
  redact_node-IsRedacted zero ancestors (reference address) path = IsRedacted-leaf 0 _
  redact_node-IsRedacted (suc left) ancestors (reference address) path =
      elim (Bool-cases (any (λ a. a == address) ancestors)) [
        | inl e ↦ rw e (IsRedacted-leaf (suc left) _)
        | inr e ↦ rw e (
            redact_contents-IsRedacted left (redact_node heap left (address ∷ ancestors))
              (redact_node-IsRedacted left (address ∷ ancestors)) path (heap address))
      ]

  -- Whatever the payload, also one whose objects hold themselves: `redactForbiddenKeys` ends; in what it returns, each
  -- forbidden key has the placeholder as its value, at every depth; at most 50 objects stand within each other; and there
  -- are as many redacted keys as there are forbidden keys in it.
  pub redact_forbidden_keys-IsRedacted :
      (value : Value)
      → IsRedacted max_redaction_depth
          (redact_forbidden_keys heap value).0
          (redact_forbidden_keys heap value).1
  unfolding redact_forbidden_keys
  redact_forbidden_keys-IsRedacted value = redact_node-IsRedacted max_redaction_depth [] value ""
