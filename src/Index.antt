-- ===== src/Index.antt =====
-- src/JContainers/src/collections/functions.h: how a script's index is turned into an offset, and
-- the guarded calls of `array_functions`. The counts are sizes that were cast to `SInt32`.
pub mod Laws
use jcontainers_ng.Common.{
  ℕ, zero, suc, ◌+◌, ◌-◌, ◌%◌, ◌&&◌, Bool, true, false, Option, none, some, List, [], ◌∷◌, ltb, leb,
  ◌==◌, if◌then◌else◌, length, ℤ, pos, negsuc, ◌+ℤ◌, ltb_ℤ, leb_ℤ,
}

-- What a call comes to: `fault` is an access through an iterator outside the container.
pub data Exec {ℓ} (A : Type ℓ) : Type ℓ where
  done : A → Exec A
  fault : Exec A

infixl 5 ◌>>=◌
abbrev pub ◌>>=◌ {ℓ κ} : {A : Type ℓ} {B : Type κ} → Exec A → (A → Exec B) → Exec B
done a >>= f = f a
fault >>= f = fault

abbrev pub checked {κ} : {B : Type κ} → Bool → B → Exec B
checked true b = done b
checked false b = fault

abbrev pub word_mod : ℕ
word_mod = 4294967296

-- The conversion of an `SInt32` to `uint32_t`.
abbrev pub to_uint : ℤ → ℕ
to_uint (pos n) = n % word_mod
to_uint (negsuc n) = word_mod - 1 - n % word_mod

-- The first number that is not an `SInt32`.
abbrev pub sint32_end : ℕ
sint32_end = 2147483648

-- The cast of a size to `SInt32`, as `u_count` makes it.
abbrev pub to_sint32 : ℕ → ℤ
to_sint32 n =
    if ltb (n % word_mod) sint32_end
    then pos (n % word_mod)
    else negsuc (word_mod - 1 - n % word_mod)

-- A negative index counts from the end.
abbrev pub py_index : ℤ → ℤ → ℤ
py_index count py = if leb_ℤ (pos 0) py then py else count +ℤ py

-- Of a container of so many items.
unfoldable pub convert_read_index : ℕ → ℤ → Option ℤ
convert_read_index size py =
    let count = to_sint32 size in
    let index = py_index count py in
    if ltb_ℤ (pos 0) count && ltb_ℤ index count then some index else none

unfoldable pub convert_write_index : ℕ → ℤ → Option ℤ
convert_write_index size py =
    let count = to_sint32 size in
    let index = (if leb_ℤ (pos 0) py then py else count +ℤ py +ℤ pos 1) in
    if leb_ℤ index count then some index else none

-- The overload for an array of indices compares unsigned words.
unfoldable pub convert_read_indices : ℕ → List ℤ → Option (List ℕ)
convert_read_indices size [] = if to_uint (to_sint32 size) == 0 then none else some []
convert_read_indices size (py ∷ pys) =
    let count = to_sint32 size in
    let index = to_uint (py_index count py) in
    elim (convert_read_indices size pys) [
      | none ↦ none
      | some rest ↦ if leb (to_uint count) index then none else some (index ∷ rest)
    ]

module _ {ℓ κ} {A : Type ℓ} {B : Type κ} where
  -- `doReadOp`, with the caller's result before the call in `rest`.
  unfoldable pub do_read_op : Option (List A) → ℤ → B → (List A → ℕ → Exec B) → Exec B
  do_read_op none py rest op = done rest
  do_read_op (some xs) py rest op = elim (convert_read_index (length xs) py) [
    | none ↦ done rest
    | some i ↦ op xs (to_uint i)
  ]

  unfoldable pub do_read_ops : Option (List A) → List ℤ → B → (List A → List ℕ → Exec B) → Exec B
  do_read_ops none pys rest op = done rest
  do_read_ops (some xs) pys rest op = elim (convert_read_indices (length xs) pys) [
    | none ↦ done rest
    | some is ↦ op xs is
  ]

  unfoldable pub do_write_op : Option (List A) → ℤ → B → (List A → ℕ → Exec B) → Exec B
  do_write_op none py rest op = done rest
  do_write_op (some xs) py rest op = elim (convert_write_index (length xs) py) [
    | none ↦ done rest
    | some i ↦ op xs (to_uint i)
  ]
