-- ===== src/Json/References.antt =====
-- `resolve_references` of `json_deserializer`, and the writes that it shares with the filling of
-- containers.
use jcontainers_ng.Common.{ℕ, Option, none, some, List, [], ◌∷◌, ◌++◌}
use jcontainers_ng.Common.Numerals.{stoi}
use jcontainers_ng.Index.{Exec, done, ◌>>=◌}
use jcontainers_ng.Item.{Item, object, object_of}
use jcontainers_ng.Forms.Strings.{Mods, string_to_form}
use jcontainers_ng.Paths.{
  Key, int_key, string_key, form_key, Container, array, map, form_map, integer_map, Store,
  u_assign_value, write,
}
use jcontainers_ng.Paths.Access.{get}
use jcontainers_ng.Paths.Parse.{make_weak_form_id}

module _ {R : Type 0} where
  -- `u_push`
  unfoldable pub push : Container R → Item R → Container R
  push (array xs) itm = array (xs ++ (itm ∷ []))
  push c itm = c

  unfoldable pub assign_item : Container R → Key → Item R → Container R
  assign_item c key itm = elim (u_assign_value c key itm) [ none ↦ c | some c' ↦ c' ]

  unfoldable pub assign_each : Store R → List (ℕ × Key) → ℕ → Store R
  assign_each s [] resolved = s
  assign_each s ((a, key) ∷ targets) resolved =
      assign_each (write s a (assign_item (s.objects a) key (object (some resolved)))) targets
        resolved

  unfoldable pub assign_resolved : Store R → List (ℕ × Key) → Option ℕ → Store R
  assign_resolved s targets none = s
  assign_resolved s targets (some resolved) = assign_each s targets resolved

  abbrev pub resolved_object : Option (Item R) → Option ℕ
  resolved_object none = none
  resolved_object (some itm) = object_of itm

  module _ (mods : Mods) where
    -- The key of a container that a text stands for; other texts are passed over.
    unfoldable pub read_key : Container R → List ℕ → Option Key
    read_key (array xs) key = none
    read_key (map m) key = some (string_key key)
    read_key (form_map m) key = elim (string_to_form mods key) [
      | none ↦ none
      | some fkey ↦ some (form_key (make_weak_form_id fkey))
    ]
    read_key (integer_map m) key = elim (stoi key) [ none ↦ none | some i ↦ some (int_key i) ]

    -- The object at a path; the empty path is that of the root.
    unfoldable pub resolve_path : Store R → ℕ → List ℕ → Exec (Option (Option ℕ))
    resolve_path s root [] = done (some (some root))
    resolve_path s root (c ∷ path) = get mods s root (some (c ∷ path)) >>= λ found. elim found [
      | none ↦ done none
      | some itm ↦ done (some (resolved_object itm))
    ]

    unfoldable pub resolve_references :
        Store R → ℕ → List (List ℕ × List (ℕ × Key)) → Exec (Option (Store R))
    resolve_references s root [] = done (some s)
    resolve_references s root ((path, targets) ∷ more) = resolve_path s root path >>= λ found.
        elim found [
          | none ↦ done none
          | some o ↦ resolve_references (assign_resolved s targets o) root more
        ]
