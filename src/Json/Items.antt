-- ===== src/Json/Items.antt =====
-- Items other than objects: what `create_value` makes of one is made the same item by `make_item`.
use jcontainers_ng.Common.{
  ℕ, ◌++◌, ◌<◌, ◌≡◌, refl, Bool, true, false, ◌==◌, none, some, List, [], ◌∷◌, arith, Bool-cases,
  Option-cases, inl, inr, ℤ, pos, negsuc,
}
use jcontainers_ng.Index.{done}
use jcontainers_ng.Item.{Item, blank, integer, real, form, object, string, object_of}
use jcontainers_ng.Item.Text.{c_str}
use jcontainers_ng.Forms.Strings.{
  Mods, is_form_string, strip_prefix, string_to_form, form_to_string,
}
use jcontainers_ng.Paths.{Key, Store}
use jcontainers_ng.Json.{
  Json, json_null, json_integer, json_real, json_string, Jansson, is_special_string,
}
use jcontainers_ng.Json.Reading.{Deserializer, to_int32, make_item, item_of_string}
use jcontainers_ng.Json.Writing.{Serializer, create_value}
use jcontainers_ng.Json.Decimal.{InRange}

-- What an item needs to be kept: an `int32_t`, a number that is a JSON number and not narrowed, a text
-- that jansson takes, without a zero byte and not special, or a form that is not deleted and whose
-- string names it.
abbrev pub IsKept : {R D : Type 0} → Jansson D → Mods → (R → D) → (D → R) → Item R → Type 0
IsKept lib mods widen narrow blank = Unit
IsKept lib mods widen narrow (integer n) = InRange n
IsKept lib mods widen narrow (real x) =
    (lib.make_real (widen x) ≡ some (json_real (widen x))) × (narrow (widen x) ≡ x)
IsKept lib mods widen narrow (form f) =
    (n : ℕ) × (f ≡ some (record { form_id = n; is_deleted = false }))
    × (0 < n)
    × (text : List ℕ) × (form_to_string mods n ≡ some text)
    × (string_to_form mods text ≡ some n)
    × (c_str text ≡ text)
    × (lib.make_string text ≡ some (json_string text))
IsKept lib mods widen narrow (object o) = ⊥
IsKept lib mods widen narrow (string s) =
    (is_special_string s ≡ false) × (c_str s ≡ s) × (lib.make_string s ≡ some (json_string s))

to_int32_range : (n : ℤ) → InRange n → to_int32 n ≡ n
unfolding to_int32
to_int32_range (pos n) h = ground arith
to_int32_range (negsuc n) h = ground arith

strip_prefix-part :
    (p q t r : List ℕ)
    → strip_prefix (p ++ q) t ≡ some r
    → (r' : List ℕ) × (strip_prefix p t ≡ some r')
unfolding strip_prefix
strip_prefix-part [] q t r h = (t, refl)
strip_prefix-part (c ∷ p) q [] r h = cc
strip_prefix-part (c ∷ p) q (d ∷ t) r h = elim (Bool-cases (c == d)) [
  | inr other ↦ cc (rw other at h)
  | inl same ↦ let (r', e) = strip_prefix-part p q t r (rw same at h) in (r', rw same e)
]

-- A form string is special.
form_string-special :
    (mods : Mods) (text : List ℕ) (n : ℕ)
    → string_to_form mods text ≡ some n
    → (is_form_string text ≡ true) × (is_special_string text ≡ true)
unfolding string_to_form is_form_string is_special_string
form_string-special mods text n h =
    elim (Option-cases (strip_prefix jcontainers_ng.Forms.Strings.prefix text)) [
      | inl nothing ↦ cc (rw (nothing, string_to_form) at h)
      | inr (r, there) ↦
          let (r', e) = strip_prefix-part (b'_' ∷ b'_' ∷ []) _ text r there in
          (rw (there, is_form_string) refl, rw (e, is_special_string) refl)
    ]

module _ {R D : Type 0} (lib : Jansson D) (mods : Mods) (widen : R → D) (narrow : D → R) where
  -- The value of an item that is kept, in every state of the two.
  abbrev pub Kept : Item R → Json D → Type 0
  Kept itm v =
      ((asserts : Bool) (root : ℕ) (s : Store R) (st : Serializer D)
        → create_value lib asserts mods widen root s st itm ≡ done (some (some v, st)))
      × ((d : Deserializer R D) (a : ℕ) (key : Key)
          → make_item lib narrow mods d v a key ≡ done (itm, d))

  pub IsKept-value : (itm : Item R) → IsKept lib mods widen narrow itm → (v : Json D) × Kept itm v
  unfolding create_value make_item item_of_string
  IsKept-value blank h = (json_null, (λ asserts root s st. refl, λ d a key. refl))
  IsKept-value (integer n) h =
      (json_integer n, (λ asserts root s st. refl, λ d a key. rw (to_int32_range n h) refl))
  IsKept-value (real x) h =
      (json_real (widen x), (λ asserts root s st. rw h.0 refl, λ d a key. rw h.1 refl))
  IsKept-value (object o) h = absurd h
  IsKept-value (string t) h =
      (json_string t, (λ asserts root s st. rw h.2 refl, λ d a key. rw h.1 (rw h.0 refl)))
  IsKept-value (form f) (n, e, p, text, printed, read, cstr, taken) =
      let (is_form, special) = form_string-special mods text n read in
      let positive : (n == 0) ≡ false = ground arith in
      (
        json_string text,
        (
          λ asserts root s st. rw e (rw (printed, create_value) (rw taken refl)),
          λ d a key. rw cstr (rw special (rw is_form (rw read (rw positive (rw e refl))))),
        ),
      )

  pub IsKept-plain : (itm : Item R) → IsKept lib mods widen narrow itm → object_of itm ≡ none
  IsKept-plain blank h = refl
  IsKept-plain (integer n) h = refl
  IsKept-plain (real x) h = refl
  IsKept-plain (form f) h = refl
  IsKept-plain (object o) h = absurd h
  IsKept-plain (string t) h = refl
