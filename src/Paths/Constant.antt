-- ===== src/Paths/Constant.antt =====
-- `access_constant` and `get` of collections/access.h, and the fuel of both kinds of access.
use jcontainers_ng.Common.{
  ℕ, zero, suc, ◌≤◌, ◌<◌, ◌≡◌, refl, ap, ◌∙◌, Bool, true, false, Option, none, some, List, [], ◌∷◌,
  ◌++◌, arith, length, take, drop, ℤ, ◌==◌, Option-cases, inl, inr,
}
use jcontainers_ng.Index.{done, fault}
use jcontainers_ng.Item.{Item, object_of}
use jcontainers_ng.Forms.Strings.{Mods, is_form_string}
use mathlib.Core.List.{append-nil}
use jcontainers_ng.Common.Numerals.{stoi}
use jcontainers_ng.Paths.{int_key, Store, u_access_value}
use jcontainers_ng.Paths.Parse.{
  find_if, is_bracket, index_key, parse_range, parse_path, make_cstring_safe, after_cstring,
  string_path_length_max,
}
use jcontainers_ng.Item.Text.{c_str}
use jcontainers_ng.Paths.Access.{
  AccessWay, constant, creative, access_by, access_creative, creative_access, constant_access,
  recurs, retrieve, access_constant, get, when_found,
}
use jcontainers_ng.Paths.Segments.{none_pass, Segment, print_path, AreWritable}
use jcontainers_ng.Paths.Walk.{Ends, retrieve-Ends, walk, walk_value, retrieve-walk}

pub take_all : (n : ℕ) (xs : List ℕ) → length xs ≤ n → take n xs ≡ xs
take_all zero [] h = refl
take_all zero (x ∷ xs) h = absurd (omega arith)
take_all (suc n) [] h = refl
take_all (suc n) (x ∷ xs) h = ap (◌∷◌ x) (take_all n xs (omega arith))

pub drop_all : (n : ℕ) (xs : List ℕ) → length xs ≤ n → drop n xs ≡ []
drop_all zero [] h = refl
drop_all zero (x ∷ xs) h = absurd (omega arith)
drop_all (suc n) [] h = refl
drop_all (suc n) (x ∷ xs) h = drop_all n xs (omega arith)

pub c_str_all : (s : List ℕ) → none_pass (λ c. c == 0) s ≡ true → c_str s ≡ s
unfolding none_pass
c_str_all [] h = refl
c_str_all (c ∷ s) h = ground (arith, c_str_all s)

pub make_cstring_safe_all :
    (s : List ℕ)
    → none_pass (λ c. c == 0) s ≡ true
    → length s ≤ string_path_length_max
    → make_cstring_safe (some s) ≡ s
unfolding make_cstring_safe
make_cstring_safe_all s h b = rw (c_str_all s h) (take_all string_path_length_max s b)

pub find_if-none :
    (test : ℕ → Bool) (s : List ℕ) → none_pass test s ≡ true → find_if test s ≡ (s, [])
unfolding find_if none_pass
find_if-none test [] h = refl
find_if-none test (c ∷ s) h = ground (arith, find_if-none test s)

-- An index without its bracket leaves a range that starts past its end.
parse_range-unclosed :
    (mods : Mods) (t : List ℕ) (i : ℤ)
    → 1 < length t
    → none_pass is_bracket t ≡ true
    → stoi t ≡ some i
    → is_form_string t ≡ false
    → parse_range mods [] (b'[' ∷ t) ≡ some (record { key = int_key i; rest_of_path = none })
unfolding parse_range index_key
parse_range-unclosed mods [] i h n e f = absurd (omega arith)
parse_range-unclosed mods (c ∷ []) i h n e f = absurd (omega arith)
parse_range-unclosed mods (c ∷ d ∷ t) i h n e f =
    let whole : is_form_string ((c ∷ d ∷ t) ++ []) ≡ false =
      ap is_form_string (append-nil (c ∷ d ∷ t)) ∙ f in
    rw (find_if-none is_bracket (c ∷ d ∷ t) n) (rw whole (rw e refl))

module _ {R : Type 0} (mods : Mods) where
  -- Whatever the path, and whether missing keys are created or not, the search for the container
  -- ends: by a read past the path's end, or with an answer. The fuel never runs out.
  pub access-Ends :
      (way : AccessWay) (s : Store R) (tree : ℕ) (cpath : Option (List ℕ))
      → Ends (access_by mods way s tree cpath)
  unfolding access_constant access_creative
  access-Ends constant s tree cpath =
      retrieve-Ends mods (after_cstring cpath) (constant_access mods (after_cstring cpath)) s tree
        (make_cstring_safe cpath)
  access-Ends creative s tree cpath =
      retrieve-Ends mods (after_cstring cpath) (creative_access mods (after_cstring cpath)) s tree
        (make_cstring_safe cpath)

  pub access_constant-walk :
      (s : Store R) (tree : ℕ) (g : Segment) (gs : List Segment)
      → AreWritable (g ∷ gs)
      → none_pass (λ c. c == 0) (print_path (g ∷ gs)) ≡ true
      → length (print_path (g ∷ gs)) ≤ string_path_length_max
      → access_constant mods s tree (some (print_path (g ∷ gs))) ≡ done (some (walk s tree g gs, s))
  unfolding access_constant
  access_constant-walk s tree g gs w h b =
      let path = print_path (g ∷ gs) in
      rw (make_cstring_safe_all path h b)
        (retrieve-walk mods (after_cstring (some path)) s tree g gs w)

  -- A path of at most 1024 bytes, written from names and indices and without a zero byte, is read
  -- by following its keys from container to container: the value is the one at the last key.
  pub get-walk :
      (s : Store R) (target : ℕ) (g : Segment) (gs : List Segment)
      → AreWritable (g ∷ gs)
      → none_pass (λ c. c == 0) (print_path (g ∷ gs)) ≡ true
      → length (print_path (g ∷ gs)) ≤ string_path_length_max
      → get mods s target (some (print_path (g ∷ gs))) ≡ done (some (walk_value s target g gs))
  unfolding get walk_value
  get-walk s target g gs w h b =
      rw (access_constant-walk s target g gs w h b, when_found)
        (elim (Option-cases (walk s target g gs)) [
          | inl nothing ↦ rw (nothing, walk_value) refl
          | inr (info, found) ↦ rw (found, walk_value) refl
        ])

  -- A path that is an index of at least two bytes without its closing bracket, where the item at
  -- that index is an object: the search goes on in a range that starts past the end of the path.
  pub get-unclosed :
      (s : Store R) (target : ℕ) (t : List ℕ) (i : ℤ) (itm : Item R) (o : ℕ)
      → 1 < length t
      → none_pass is_bracket t ≡ true
      → stoi t ≡ some i
      → is_form_string t ≡ false
      → none_pass (λ c. c == 0) (b'[' ∷ t) ≡ true
      → length t < string_path_length_max
      → u_access_value (s.objects target) (int_key i) ≡ some itm
      → object_of itm ≡ some o
      → get mods s target (some (b'[' ∷ t)) ≡ fault
  unfolding get access_constant retrieve parse_path constant_access recurs after_cstring
  get-unclosed s target t i itm o h n e f z b there refers =
      let all = make_cstring_safe_all (b'[' ∷ t) z (omega arith) in
      let nothing : after_cstring (some (b'[' ∷ t)) ≡ [] =
        ap (drop string_path_length_max) (c_str_all (b'[' ∷ t) z)
        ∙ drop_all string_path_length_max (b'[' ∷ t) (omega arith) in
      rw (all, get)
        (rw nothing (
          rw (parse_range-unclosed mods t i h n e f, constant_access)
            (rw (there, recurs) (rw refers refl))))
