-- ===== src/Json.antt =====
-- src/JContainers/src/collections/json_serialization.h: containers to JSON and back. A `json_t` is a
-- scalar or the number of a node of a `Document`; an object's node lists its pairs in the order in
-- which `json_object_foreach` gives them. What jansson does is the parameter `Jansson`.
pub mod Outcomes
pub mod References
pub mod Reading
pub mod Trees
pub mod Ends
pub mod Rounds
pub mod Reads
pub mod Trails
pub mod Serials
pub mod Written
pub mod Leads
pub mod Decimal
pub mod Resolves
pub mod Items
pub mod RoundTrip
pub mod Arrays
pub mod MetaInfo
pub mod Keys
pub mod Writing
pub mod Tests
use jcontainers_ng.Common.{
  ℕ, ◌+◌, ◌≡◌, Bool, true, false, ◌==◌, if◌then◌else◌, Option, none, some, List, [], ◌∷◌, ◌++◌, ℤ,
}
use jcontainers_ng.Forms.Strings.{strip_prefix}

-- `json_t`; `Double` stands for `double`.
pub data Json (Double : Type 0) : Type 0 where
  json_null json_true json_false : Json Double
  json_integer : ℤ → Json Double
  json_real : Double → Json Double
  json_string : List ℕ → Json Double
  json_node : ℕ → Json Double

pub data JsonNode (Double : Type 0) : Type 0 where
  json_array : List (Json Double) → JsonNode Double
  json_object : List (List ℕ × Json Double) → JsonNode Double

-- The nodes, and the first number that is not in use.
pub record Document (Double : Type 0) : Type 0 where
  pub nodes : ℕ → JsonNode Double
  pub next_node : ℕ

-- The functions of jansson that the code calls; a null pointer is `none`.
pub record Jansson (Double : Type 0) : Type 0 where
  pub object_get : List (List ℕ × Json Double) → List ℕ → Option (Json Double)
  pub object_del : List (List ℕ × Json Double) → List ℕ → List (List ℕ × Json Double)
  pub object_set_new :
      List (List ℕ × Json Double) → List ℕ → Option (Json Double) → List (List ℕ × Json Double)
  pub array_append_new : List (Json Double) → Option (Json Double) → List (Json Double)
  pub make_string : List ℕ → Option (Json Double)
  pub make_real : Double → Option (Json Double)

-- "__reference|"
abbrev pub reference_prefix : List ℕ
reference_prefix =
    b'_' ∷ b'_' ∷ b'r' ∷ b'e' ∷ b'f' ∷ b'e' ∷ b'r' ∷ b'e' ∷ b'n' ∷ b'c' ∷ b'e' ∷ b'|' ∷ []

unfoldable pub is_special_string : List ℕ → Bool
is_special_string str = elim (strip_prefix (b'_' ∷ b'_' ∷ []) str) [ none ↦ false | some _ ↦ true ]

unfoldable pub is_reference : List ℕ → Bool
is_reference str = elim (strip_prefix reference_prefix str) [ none ↦ false | some _ ↦ true ]

-- The path after the prefix of a reference.
unfoldable pub extract_path : List ℕ → Option (List ℕ)
extract_path str = strip_prefix reference_prefix str

-- "__metaInfo"
abbrev pub meta_info : List ℕ
meta_info = b'_' ∷ b'_' ∷ b'm' ∷ b'e' ∷ b't' ∷ b'a' ∷ b'I' ∷ b'n' ∷ b'f' ∷ b'o' ∷ []

-- "__formData"
abbrev pub meta_info_legacy : List ℕ
meta_info_legacy = b'_' ∷ b'_' ∷ b'f' ∷ b'o' ∷ b'r' ∷ b'm' ∷ b'D' ∷ b'a' ∷ b't' ∷ b'a' ∷ []

-- "typeName"
abbrev pub type_name : List ℕ
type_name = b't' ∷ b'y' ∷ b'p' ∷ b'e' ∷ b'N' ∷ b'a' ∷ b'm' ∷ b'e' ∷ []

-- "JFormMap"
abbrev pub form_map_name : List ℕ
form_map_name = b'J' ∷ b'F' ∷ b'o' ∷ b'r' ∷ b'm' ∷ b'M' ∷ b'a' ∷ b'p' ∷ []

-- "JIntMap"
abbrev pub integer_map_name : List ℕ
integer_map_name = b'J' ∷ b'I' ∷ b'n' ∷ b't' ∷ b'M' ∷ b'a' ∷ b'p' ∷ []

-- `strcmp` against a name.
unfoldable pub same_text : List ℕ → List ℕ → Bool
same_text [] [] = true
same_text (a ∷ s) (b ∷ t) = let rest = same_text s t in if a == b then rest else false
same_text _ _ = false

abbrev pub set_node : {D : Type 0} → Document D → ℕ → JsonNode D → Document D
set_node doc n node = record doc { nodes = λ m. if n == m then node else doc.nodes m }

-- A node at a number that is free.
abbrev pub new_node : {D : Type 0} → Document D → JsonNode D → ℕ × Document D
new_node doc node =
    (doc.next_node, record (set_node doc doc.next_node node) { next_node = doc.next_node + 1 })
