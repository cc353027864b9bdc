-- ===== src/Json/Keys.antt =====
-- The keys of `json_serializer`: where an object was first met, the path from the root to it, and the
-- text of a key. `asserts` says whether `assert` evaluates its argument, which it does not when NDEBUG
-- is defined; both conversions of a number to text stand inside an `assert`.
use jcontainers_ng.Common.{
  ℕ, zero, suc, ◌+◌, ◌/◌, ◌%◌, Bool, true, false, ◌==◌, if◌then◌else◌, Option, none, some, List, [],
  ◌∷◌, ◌++◌, length, ℤ, pos, negsuc,
}
use jcontainers_ng.Index.{Exec, done, fault, ◌>>=◌}
use mathlib.Core.List
use jcontainers_ng.Item.{FormRef, Item, form_get}
use jcontainers_ng.Item.Text.{c_str}
use jcontainers_ng.Forms.Strings.{Mods, form_to_string}
use jcontainers_ng.Paths.{
  Key, int_key, string_key, form_key, Container, array, map, form_map, integer_map,
}
use jcontainers_ng.Json.{reference_prefix}

-- The decimal digits in front of `s`, with as many rounds as an `int` has digits.
unfoldable pub print_decimal : ℕ → ℕ → List ℕ → List ℕ
print_decimal zero n s = s
print_decimal (suc rounds) n s =
    let rest = print_decimal rounds (n / 10) ((b'0' + n % 10) ∷ s) in
    if n / 10 == 0 then (b'0' + n % 10) ∷ s else rest

-- `%d`
unfoldable pub print_int : ℤ → List ℕ
print_int (pos n) = print_decimal 10 n []
print_int (negsuc n) = b'-' ∷ print_decimal 10 (n + 1) []

-- `_keyInfo`: the container and the key where an object was first met.
abbrev pub KeyInfo : Type 0
KeyInfo = List (ℕ × (ℕ × Key))

unfoldable pub find_info : KeyInfo → ℕ → Option (ℕ × Key)
find_info [] child = none
find_info ((a, owner) ∷ info) child =
    let rest = find_info info child in if a == child then some owner else rest

unfoldable pub contains : List ℕ → ℕ → Bool
contains [] a = false
contains (b ∷ bs) a = if b == a then true else contains bs a

-- `emplace` leaves an entry that is there.
unfoldable pub emplace : KeyInfo → ℕ → ℕ × Key → KeyInfo
emplace info child owner = elim (find_info info child) [
  | none ↦ info ++ ((child, owner) ∷ [])
  | some _ ↦ info
]

-- The loop of `path_to_object`: the keys from the root, on fuel; `none` is fuel that ran out. It
-- stops early at an object that no container was seen to hold.
unfoldable pub climb : ℕ → KeyInfo → ℕ → ℕ → List Key → Option (List Key)
climb zero info root child keys = if child == root then some keys else none
climb (suc fuel) info root child keys = elim (child == root) [
  | true ↦ some keys
  | false ↦ elim (find_info info child) [
    | none ↦ some keys
    | some (owner, key) ↦ climb fuel info root owner (key ∷ keys)
  ]
]

module _ (asserts : Bool) (mods : Mods) where
  -- `path_appender`: an optional without a value is read for a form that has no text.
  unfoldable pub key_text : Key → Exec (List ℕ)
  key_text (string_key key) = done (b'.' ∷ key)
  key_text (int_key idx) = done (if asserts then b'[' ∷ (print_int idx ++ (b']' ∷ [])) else [])
  key_text (form_key fid) = elim (form_to_string mods (form_get fid)) [
    | none ↦ fault
    | some s ↦ done (b'[' ∷ (s ++ (b']' ∷ [])))
  ]

  unfoldable pub keys_text : List Key → Exec (List ℕ)
  keys_text [] = done []
  keys_text (key ∷ keys) = key_text key >>= λ s. keys_text keys >>= λ t. done (s ++ t)

  -- An inner `none` is fuel that ran out.
  unfoldable pub path_to_object : KeyInfo → ℕ → ℕ → Exec (Option (List ℕ))
  path_to_object info root obj = elim (climb (length info) info root obj []) [
    | none ↦ done none
    | some keys ↦ keys_text keys >>= λ s. done (some (reference_prefix ++ s))
  ]

  module _ {R : Type 0} where
    -- What the three maps make of a pair: its key and the text of it, or none if the pair is passed
    -- over.
    unfoldable pub form_member : FormRef × Item R → Option (Key × List ℕ) × Item R
    form_member (fid, itm) = elim (form_to_string mods (form_get fid)) [
      | none ↦ (none, itm)
      | some text ↦ (some (form_key fid, text), itm)
    ]

    unfoldable pub members_of : Container R → List (Option (Key × List ℕ) × Item R)
    members_of (array xs) = []
    members_of (map m) =
        List.map (λ (p : List ℕ × Item R). (some (string_key p.0, c_str p.0), p.1)) m
    members_of (form_map m) = List.map form_member m
    members_of (integer_map m) =
        List.map
          (λ (p : ℤ × Item R). (some (int_key p.0, if asserts then print_int p.0 else []), p.1)) m
