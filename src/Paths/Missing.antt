-- ===== src/Paths/Missing.antt =====
-- `path_resolving::resolve` on an index that follows a missing name.
use jcontainers_ng.Common.{
  ℕ, zero, suc, ◌≤◌, ◌<◌, ◌≡◌, refl, ap, ◌∙◌, true, false, Option, none, some, List, [], ◌∷◌, ◌++◌,
  arith, length, ℤ, ◌==◌,
}
use mathlib.Core.List.{append_assoc}
use jcontainers_ng.Index.{Exec, done, fault, ◌>>=◌}
use jcontainers_ng.Item.{Reals, Item}
use jcontainers_ng.Forms.Strings.{Mods, is_form_string}
use jcontainers_ng.Maps
use jcontainers_ng.Paths.{map, Store, u_access_value, string_key, name_lt}
use jcontainers_ng.Paths.Parse.{is_bracket, string_path_length_max}
use jcontainers_ng.Paths.Segments.{
  Segment, named, indexed, print_path, AreWritable, none_pass, find_if-append,
}
use jcontainers_ng.Paths.Resolve.{
  by_name, State, Visits, get_node, operator_name, map_name, index_text, index_node, deref,
  map_rule, array_rule, other_rules, operator_rule, enter, proceed, after_operator, round, run,
  resolve,
}
use jcontainers_ng.Paths.Solve.{at_name, resolve-name, get_node-name, length-append}

module _ (r : Reals) where
  open r use {Real}

  operator_name-bracket : (s : List ℕ) → operator_name r (b'[' ∷ s) ≡ none
  unfolding operator_name
  operator_name-bracket [] = refl
  operator_name-bracket (c ∷ s) = refl

  map_name-bracket : (s : List ℕ) → map_name r (b'[' ∷ s) ≡ none
  unfolding map_name
  map_name-bracket [] = refl
  map_name-bracket (c ∷ s) = refl

  index_text-indexed :
      (t rest : List ℕ)
      → 0 < length t
      → none_pass is_bracket t ≡ true
      → index_text r (b'[' ∷ (t ++ (b']' ∷ rest))) ≡ some (t, b']' ∷ rest)
  unfolding index_text
  index_text-indexed [] rest h p = absurd (omega arith)
  index_text-indexed (c ∷ []) rest h p =
      let found = find_if-append is_bracket (c ∷ []) (b']' ∷ rest) p refl in
      rw found (ap some found)
  index_text-indexed (c ∷ d ∷ t) rest h p =
      let found = find_if-append is_bracket (c ∷ d ∷ t) (b']' ∷ rest) p refl in
      rw found (ap some found)

  module _ (mods : Mods) (s : Store Real) where
    deref-missing :
        (st : State r)
        → get_node r s st.node_getter st.collection ≡ none
        → deref r mods s st ≡ fault
    unfolding deref
    deref-missing st e = rw (e, deref) refl

    array_rule-missing :
        (t : List ℕ) (i : ℤ) (gs : List Segment) (st : State r)
        → AreWritable (indexed t i ∷ [])
        → get_node r s st.node_getter st.collection ≡ none
        → array_rule r mods s [] (print_path (indexed t i ∷ gs)) st ≡ fault
    unfolding array_rule index_node
    array_rule-missing t i gs st w e =
        let rest = b']' ∷ print_path gs in
        let whole : is_form_string ((t ++ rest) ++ []) ≡ false =
          ap is_form_string (append_assoc t rest []) ∙ w.0.3 (rest ++ []) in
        rw (index_text-indexed t (print_path gs) w.0.0 w.0.1, array_rule)
          (rw (whole, index_node) (rw w.0.2 (rw (deref-missing st e, ◌>>=◌) refl)))

    operator_rule-bracket :
        (visit : ℕ → List ℕ → Exec (Option (Visits r))) (path : List ℕ) (st : State r)
        → operator_rule r mods s visit [] (b'[' ∷ path) st ≡ done (some none)
    unfolding operator_rule
    operator_rule-bracket visit path st = rw (operator_name-bracket path, operator_rule) refl

    other_rules-missing :
        (t : List ℕ) (i : ℤ) (gs : List Segment) (st : State r)
        → AreWritable (indexed t i ∷ [])
        → get_node r s st.node_getter st.collection ≡ none
        → other_rules r mods s [] (print_path (indexed t i ∷ gs)) st ≡ fault
    unfolding other_rules map_rule
    other_rules-missing t i gs st w e =
        rw (map_name-bracket (t ++ (b']' ∷ print_path gs)), other_rules, map_rule)
          (array_rule-missing t i gs st w e)

    proceed-missing :
        (fuel : ℕ) (t : List ℕ) (i : ℤ) (gs : List Segment) (n : List ℕ) (c : ℕ)
        → AreWritable (indexed t i ∷ [])
        → get_node r s (by_name n) (some c) ≡ none
        → 0 < fuel
        → proceed r mods s (run r mods s fuel) [] (at_name r mods s [] n c (indexed t i ∷ gs))
          ≡ fault
    unfolding proceed run round after_operator
    proceed-missing zero t i gs n c w e h = absurd (omega arith)
    proceed-missing (suc fuel) t i gs n c w e h =
        let here = at_name r mods s [] n c (indexed t i ∷ gs) in
        let tried =
          operator_rule-bracket (enter r mods s (run r mods s fuel)) (t ++ (b']' ∷ print_path gs))
            here in
        rw (tried, ◌>>=◌, after_operator) (rw (other_rules-missing t i gs here w e, ◌>>=◌) refl)

module _ (r : Reals) (mods : Mods) where
  open r use {Real}

  -- An index after a name that the map does not have, on a path without a zero byte, of at most 1024
  -- bytes: `resolve` reads through the null pointer that it got for the name.
  pub resolve-missing :
      (s : Store Real) (target : ℕ) (m : List (List ℕ × Item Real)) (n t : List ℕ) (i : ℤ)
      (gs : List Segment)
      → AreWritable (named n ∷ indexed t i ∷ [])
      → none_pass (λ c. c == 0) (print_path (named n ∷ indexed t i ∷ gs)) ≡ true
      → length (print_path (named n ∷ indexed t i ∷ gs)) ≤ string_path_length_max
      → s.objects target ≡ map m
      → Maps.u_get name_lt m n ≡ none
      → resolve r mods s (some target) (some (print_path (named n ∷ indexed t i ∷ gs))) ≡ fault
  unfolding u_access_value
  resolve-missing s target m n t i gs w z b e missing =
      resolve-name r mods s target n (indexed t i ∷ gs) (w.0, tt) z b
      ∙ proceed-missing r mods s (length (n ++ print_path (indexed t i ∷ gs))) t i gs n target
          (w.1.0, tt) (get_node-name r mods s [] n target ∙ nothing)
          (omega (arith, length-append n (print_path (indexed t i ∷ gs))))
    where
      nothing : u_access_value (s.objects target) (string_key n) ≡ none
      nothing = rw (e, u_access_value) missing
