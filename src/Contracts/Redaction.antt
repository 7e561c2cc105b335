-- ===== src/Contracts/Redaction.antt =====
-- packages/contracts/src/redact.ts: redactForbiddenKeys. The objects of a payload stand in a heap, so that one can be
-- met twice, and can hold itself; what comes out is a tree. An object is given by its own enumerable keys, in their
-- order, none of them twice.
pub mod Forbidden
pub mod Placeholders
mod Tests
use Prim.Native.Char.{code}
use Prim.Native.String
use posta.Shared.{
  ℕ, zero, suc, ◌+◌, String, Bool, true, false, ◌&&◌, ◌||◌, List, [], ◌∷◌, ◌++◌, any, has,
  if◌then◌else◌, leb, ◌==◌, str_eq,
}
use posta.Shared.Text.{to_lower_case, concat, show}
use posta.Shared.Chars.{every}

abbrev pub secret_redaction_placeholder : String
secret_redaction_placeholder = "[REDACTED]"

abbrev pub forbidden_payload_keys : List String
forbidden_payload_keys =
    "ip" ∷ "client_ip" ∷ "client-ip" ∷ "remote_addr" ∷ "remote-addr" ∷ "x-forwarded-for"
    ∷ "x_forwarded_for" ∷ "forwarded" ∷ "x-real-ip" ∷ "x_real_ip" ∷ "x-client-ip" ∷ "x_client_ip"
    ∷ "cf-connecting-ip" ∷ "cf_connecting_ip" ∷ "true-client-ip" ∷ "true_client_ip"
    ∷ "fastly-client-ip" ∷ "fastly_client_ip" ∷ "cookie" ∷ "set-cookie" ∷ "set_cookie" ∷ []

pub is_forbidden_key : String → Bool
is_forbidden_key key = has forbidden_payload_keys (to_lower_case key)

abbrev pub is_identifier_start : ℕ → Bool
is_identifier_start n = leb 65 n && leb n 90 || leb 97 n && leb n 122 || n == 95 || n == 36

abbrev pub is_identifier_char : ℕ → Bool
is_identifier_char n = is_identifier_start n || leb 48 n && leb n 57

-- `IDENTIFIER_PATTERN.test(text)`
abbrev pub is_identifier : String → Bool
is_identifier String.[] = false
is_identifier (String.◌∷◌ c s) = is_identifier_start (code c) && every is_identifier_char s

pub build_property_path : (parent_path key : String) → String
build_property_path parent_path key =
    if str_eq parent_path ""
    then (if is_identifier key then key else concat ("['" ∷ key ∷ "']" ∷ []))
    else if is_identifier key
    then concat (parent_path ∷ "." ∷ key ∷ [])
    else concat (parent_path ∷ "['" ∷ key ∷ "']" ∷ [])

pub build_index_path : String → ℕ → String
build_index_path parent_path index = concat (parent_path ∷ "[" ∷ show index ∷ "]" ∷ [])

abbrev pub max_redaction_depth : ℕ
max_redaction_depth = 50

abbrev pub max_depth_exceeded_placeholder : String
max_depth_exceeded_placeholder = "[MAX_DEPTH_EXCEEDED]"

abbrev pub circular_reference_placeholder : String
circular_reference_placeholder = "[CIRCULAR_REFERENCE]"

-- A text, or any other value that is no object, by what it prints as.
pub data Primitive : Type 0 where
  text : String → Primitive
  other : String → Primitive

pub data Value : Type 0 where
  primitive : Primitive → Value
  reference : ℕ → Value

pub data Node : Type 0 where
  array : List Value → Node
  object : List (String × Value) → Node

abbrev pub Heap : Type 0
Heap = ℕ → Node

-- What comes out.
mutual
  pub data Redacted : Type 0 where
    leaf : Primitive → Redacted
    items : Items → Redacted
    fields : Fields → Redacted

  pub data Items : Type 0 where
    no_items : Items
    item : Redacted → Items → Items

  pub data Fields : Type 0 where
    no_fields : Fields
    field : (key : String) → Redacted → Fields → Fields

-- A call of `redactNode` at a value and a path: what it returns, and the paths it pushes.
abbrev pub Redactor : Type 0
Redactor = Value → String → Redacted × List String

-- `node.map(…)`, from an index on.
unfoldable pub redact_items : Redactor → String → ℕ → List Value → Items × List String
redact_items redact path index [] = (no_items, [])
redact_items redact path index (value ∷ values) =
    let (out, keys) = redact value (build_index_path path index) in
    let (rest, more) = redact_items redact path (index + 1) values in (item out rest, keys ++ more)

-- The value of one key.
abbrev pub redact_field : Redactor → String → String → Value → Redacted × List String
redact_field redact path key value =
    if is_forbidden_key key
    then (leaf (text secret_redaction_placeholder), build_property_path path key ∷ [])
    else redact value (build_property_path path key)

unfoldable pub redact_fields : Redactor → String → List (String × Value) → Fields × List String
redact_fields redact path [] = (no_fields, [])
redact_fields redact path ((key, value) ∷ rest) =
    let (out, keys) = redact_field redact path key value in
    let (others, more) = redact_fields redact path rest in (field key out others, keys ++ more)

abbrev pub redact_contents : Redactor → String → Node → Redacted × List String
redact_contents redact path (array values) =
    let (out, keys) = redact_items redact path 0 values in (items out, keys)
redact_contents redact path (object entries) =
    let (out, keys) = redact_fields redact path entries in (fields out, keys)

module _ (heap : Heap) where
  -- `redactNode`, with the depth that is left and the addresses of the ancestors.
  unfoldable pub redact_node : ℕ → List ℕ → Redactor
  redact_node left ancestors (primitive p) path = (leaf p, [])
  redact_node zero ancestors (reference address) path =
      (leaf (text max_depth_exceeded_placeholder), [])
  redact_node (suc left) ancestors (reference address) path =
      let below = redact_node left (address ∷ ancestors) in
      if any (λ a. a == address) ancestors
      then (leaf (text circular_reference_placeholder), [])
      else redact_contents below path (heap address)

  unfoldable pub redact_forbidden_keys : Value → Redacted × List String
  redact_forbidden_keys value = redact_node max_redaction_depth [] value ""
