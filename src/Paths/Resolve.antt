-- ===== src/Paths/Resolve.antt =====
-- `path_resolving::resolve` of collections/access.cpp, without the creation of missing keys, which no
-- caller asks for. The function that visits items is the list of what it is called with, in order;
-- `none` is a call with a null pointer.
use jcontainers_ng.Common.{
  ℕ, zero, suc, ◌==◌, if◌then◌else◌, Option, none, some, List, [], ◌∷◌, ◌++◌, length, take, drop, ℤ,
  pos,
}
use jcontainers_ng.Common.Numerals.{stoi}
use jcontainers_ng.Index.{Exec, done, fault, ◌>>=◌}
use jcontainers_ng.Item.{Reals, Item, blank, integer, form, object, string, object_of}
use jcontainers_ng.Item.Text.{c_str, stricmp_eq}
use jcontainers_ng.Item.Operators.{max_num, min_num, max_flt, min_flt, max_int, min_int}
use jcontainers_ng.Array
use jcontainers_ng.Maps
use jcontainers_ng.Forms.Strings.{Mods, is_form_string, string_to_form}
use jcontainers_ng.Paths.{
  Container, array, map, form_map, integer_map, Store, name_lt, form_lt, u_access_value, int_key,
}
use jcontainers_ng.Paths.Parse.{
  find_if, is_key_end, is_bracket, after_bracket, make_weak_form_id, string_path_length_max,
}

module _ (r : Reals) where
  open r use {Real}

  -- `nodeGetter`
  pub data Node : Type 0 where
    root : ℕ → Node
    shared : Item Real → Node
    by_name : List ℕ → Node
    by_index : ℤ → ℕ → Node

  -- `state` of a search that has succeeded so far; `path` is `none` for a range that starts past its end.
  pub record State : Type 0 where
    pub path : Option (List ℕ)
    pub node_getter : Node
    pub collection : Option ℕ

  abbrev pub Visits : Type 0
  Visits = List (Option (Item Real))

  -- The call of `nodeGetter` on an object.
  unfoldable pub get_node : Store Real → Node → Option ℕ → Option (Item Real)
  get_node s (root c) o = some (object (some c))
  get_node s (shared itm) o = some itm
  get_node s (by_name key) none = none
  get_node s (by_name key) (some o) = elim (s.objects o) [
    | map m ↦ Maps.u_get name_lt m key
    | array xs ↦ none
    | form_map m ↦ none
    | integer_map m ↦ none
  ]
  get_node s (by_index index form_id) none = none
  get_node s (by_index index form_id) (some o) = elim (s.objects o) [
    | map m ↦ none
    | array xs ↦ Array.u_get xs index
    | form_map m ↦ Maps.u_get form_lt m (make_weak_form_id form_id)
    | integer_map m ↦ u_access_value (integer_map m) (int_key index)
  ]

  -- `get_operator`; `util::istring` compares without case.
  unfoldable pub find_operator :
      List (List ℕ × (Item Real → Item Real → Item Real))
      → List ℕ
      → Option (Item Real → Item Real → Item Real)
  find_operator [] key = none
  find_operator ((name, func) ∷ rest) key =
      let found = find_operator rest key in if stricmp_eq name key then some func else found

  abbrev pub operators : List (List ℕ × (Item Real → Item Real → Item Real))
  operators =
      (b'm' ∷ b'a' ∷ b'x' ∷ b'N' ∷ b'u' ∷ b'm' ∷ [], max_num r)
      ∷ (b'm' ∷ b'i' ∷ b'n' ∷ b'N' ∷ b'u' ∷ b'm' ∷ [], min_num r)
      ∷ (b'm' ∷ b'a' ∷ b'x' ∷ b'F' ∷ b'l' ∷ b't' ∷ [], max_flt r)
      ∷ (b'm' ∷ b'i' ∷ b'n' ∷ b'F' ∷ b'l' ∷ b't' ∷ [], min_flt r)
      ∷ (b'm' ∷ b'a' ∷ b'x' ∷ b'I' ∷ b'n' ∷ b't' ∷ [], max_int r)
      ∷ (b'm' ∷ b'i' ∷ b'n' ∷ b'I' ∷ b'n' ∷ b't' ∷ [], min_int r)
      ∷ []

  -- `itemVisitFunc`: null pointers are passed over.
  unfoldable pub apply_operator :
      (Item Real → Item Real → Item Real) → Visits → Item Real → Item Real
  apply_operator func [] shared_item = shared_item
  apply_operator func (none ∷ visits) shared_item = apply_operator func visits shared_item
  apply_operator func (some itm ∷ visits) shared_item =
      apply_operator func visits (func itm shared_item)

  -- The name after `@`, and the path from the next dot on.
  unfoldable pub operator_name : List ℕ → Option (List ℕ × List ℕ)
  operator_name [] = none
  operator_name (c ∷ []) = none
  operator_name (c ∷ d ∷ s) =
      let e = find_if (λ b. b == b'.') (d ∷ s) in
      if c == b'@' then (elim e.0 [ [] ↦ none | x ∷ xs ↦ some e ]) else none

  unfoldable pub map_name : List ℕ → Option (List ℕ × List ℕ)
  map_name [] = none
  map_name (c ∷ []) = none
  map_name (c ∷ d ∷ s) =
      let e = find_if is_key_end (d ∷ s) in
      if c == b'.' then (elim e.0 [ [] ↦ none | x ∷ xs ↦ some e ]) else none

  -- The text in brackets, and what follows it from the bracket on.
  unfoldable pub index_text : List ℕ → Option (List ℕ × List ℕ)
  index_text (c ∷ d ∷ x ∷ s) =
      let e = find_if is_bracket (d ∷ x ∷ s) in
      if c == b'[' then (elim e.0 [ [] ↦ none | y ∷ ys ↦ some e ]) else none
  index_text _ = none

  -- What the items of a container are visited as: the rest of the path, and the items. `none` is a
  -- path that starts with neither `.key` nor `.value`.
  unfoldable pub strip_name : List ℕ → List ℕ → Option (List ℕ)
  strip_name [] path = some path
  strip_name (p ∷ ps) [] = none
  strip_name (p ∷ ps) (c ∷ path) =
      let rest = strip_name ps path in if stricmp_eq (p ∷ []) (c ∷ []) then rest else none

  abbrev pub key_path : List ℕ
  key_path = b'.' ∷ b'k' ∷ b'e' ∷ b'y' ∷ []

  abbrev pub value_path : List ℕ
  value_path = b'.' ∷ b'v' ∷ b'a' ∷ b'l' ∷ b'u' ∷ b'e' ∷ []

  module _ {K : Type 0} (key_item : K → Item Real) where
    unfoldable pub key_items : List (K × Item Real) → List (Item Real)
    key_items [] = []
    key_items ((k, v) ∷ m) = key_item k ∷ key_items m

    unfoldable pub value_items : List (K × Item Real) → List (Item Real)
    value_items [] = []
    value_items ((k, v) ∷ m) = v ∷ value_items m

    -- `_map_visit_helper`
    unfoldable pub map_visit : List (K × Item Real) → List ℕ → List (Item Real) × List ℕ
    map_visit m path = elim (strip_name key_path path) [
      | some right_path ↦ (key_items m, right_path)
      | none ↦ elim (strip_name value_path path) [
        | some right_path ↦ (value_items m, right_path)
        | none ↦ ([], path)
      ]
    ]

  -- The items that an operator goes through, and the path from each.
  unfoldable pub to_visit : Container Real → List ℕ → List (Item Real) × List ℕ
  to_visit (array xs) path = (xs, path)
  to_visit (map m) path = map_visit (λ k. string k) m path
  to_visit (form_map m) path = map_visit (λ k. form k) m path
  to_visit (integer_map m) path = map_visit (λ k. integer k) m path

  module _ (mods : Mods) (s : Store Real) where
    -- `mapRule`
    unfoldable pub map_rule : List ℕ → State → Option State
    map_rule path st = elim (map_name path) [
      | none ↦ none
      | some e ↦ elim (get_node s st.node_getter st.collection) [
        | none ↦ none
        | some node ↦ elim (object_of node) [
          | none ↦ none
          | some container ↦
              some
                (record { path = some e.1; node_getter = by_name e.0; collection = some container })
        ]
      ]
    ]

    -- The node of an index or of a form string in brackets.
    unfoldable pub index_node : List ℕ → List ℕ → Option Node
    index_node whole text =
        if is_form_string whole
        then (elim (string_to_form mods whole) [
          | none ↦ none
          | some form_id ↦ some (by_index (pos 0) form_id)
        ])
        else (elim (stoi text) [ none ↦ none | some index ↦ some (by_index index 0) ])

    -- `nodeGetter(object)->object()`: a null pointer is not tested for.
    unfoldable pub deref : State → Exec (Option ℕ)
    deref st = elim (get_node s st.node_getter st.collection) [
      | none ↦ fault
      | some node ↦ done (object_of node)
    ]

    -- `arrayRule`; `tail` is what follows the range of the path up to the zero byte.
    unfoldable pub array_rule : List ℕ → List ℕ → State → Exec (Option State)
    array_rule tail path st = elim (index_text path) [
      | none ↦ done none
      | some e ↦ elim (index_node (drop 1 path ++ tail) e.0) [
        | none ↦ done none
        | some node ↦ deref st >>= λ o. elim o [
          | none ↦ done none
          | some container ↦ done (
              some (record {
                path = after_bracket e.1;
                node_getter = node;
                collection = some container;
              }))
        ]
      ]
    ]

    -- The rules that are tried after the operators, and the end of the loop's round.
    unfoldable pub other_rules : List ℕ → List ℕ → State → Exec (Option State)
    other_rules tail path st = elim (map_rule path st) [
      | some next ↦ done (some next)
      | none ↦ array_rule tail path st
    ]

    -- The items of a collection one after another, each from the rest of the path.
    module _ (resolve_object : ℕ → List ℕ → Exec (Option Visits)) where
      unfoldable pub resolve_item : Item Real → List ℕ → Exec (Option Visits)
      resolve_item target cpath = elim (object_of target) [
        | some o ↦ resolve_object o cpath
        | none ↦ elim cpath [ [] ↦ done (some (some target ∷ [])) | c ∷ rest ↦ done (some []) ]
      ]

      unfoldable pub resolve_each : List (Item Real) → List ℕ → Exec (Option Visits)
      resolve_each [] cpath = done (some [])
      resolve_each (itm ∷ items) cpath = resolve_item itm cpath >>= λ first.
          resolve_each items cpath >>= λ others. elim first [
            | none ↦ done none
            | some xs ↦ elim others [ none ↦ done none | some ys ↦ done (some (xs ++ ys)) ]
          ]

      -- `operatorRule`; the inner `none` is a rule that fails.
      unfoldable pub operator_rule : List ℕ → List ℕ → State → Exec (Option (Option State))
      operator_rule tail path st = elim (operator_name path) [
        | none ↦ done (some none)
        | some e ↦ deref st >>= λ o. elim o [
          | none ↦ done (some none)
          | some container ↦ elim (find_operator operators e.0) [
            | none ↦ done (some none)
            | some func ↦
                let v = to_visit (s.objects container) e.1 in
                resolve_each v.0 (v.1 ++ tail) >>= λ found. elim found [
                  | none ↦ done none
                  | some visits ↦ done (
                      some (
                        some (record {
                          path = some [];
                          node_getter = shared (apply_operator func visits blank);
                          collection = none;
                        })))
                ]
          ]
        ]
      ]

    module _ (continue : List ℕ → State → Exec (Option Visits)) where
      -- The search from an object with a path that is not empty.
      unfoldable pub enter : ℕ → List ℕ → Exec (Option Visits)
      enter o [] = done (some (some (object (some o)) ∷ []))
      enter o (c ∷ rest) = continue (drop string_path_length_max (c ∷ rest)) (record {
        path = some (take string_path_length_max (c ∷ rest));
        node_getter = root o;
        collection = some o;
      })

      -- After a rule that succeeded the search is over when the path is.
      unfoldable pub proceed : List ℕ → State → Exec (Option Visits)
      proceed tail next = elim next.path [
        | none ↦ continue tail next
        | some [] ↦ done (some (get_node s next.node_getter next.collection ∷ []))
        | some (c ∷ rest) ↦ continue tail next
      ]

      unfoldable pub after_rules : List ℕ → Option State → Exec (Option Visits)
      after_rules tail none = done (some (none ∷ []))
      after_rules tail (some next) = proceed tail next

      unfoldable pub after_operator :
          List ℕ → List ℕ → State → Option (Option State) → Exec (Option Visits)
      after_operator tail path st none = done none
      after_operator tail path st (some (some next)) = proceed tail next
      after_operator tail path st (some none) = other_rules tail path st >>= after_rules tail

      -- A round of the loop.
      unfoldable pub round : List ℕ → State → Exec (Option Visits)
      round tail st = elim st.path [
        | none ↦ fault
        | some path ↦ operator_rule enter tail path st >>= after_operator tail path st
      ]

    -- The loop, and the calls of `resolve` from its operators, on fuel.
    unfoldable pub run : ℕ → List ℕ → State → Exec (Option Visits)
    run zero tail st = done none
    run (suc fuel) tail st = round (run fuel) tail st

    -- `resolve` on an object.
    unfoldable pub resolve : Option ℕ → Option (List ℕ) → Exec (Option Visits)
    resolve none cpath = done (some [])
    resolve (some collection) none = done (some [])
    resolve (some collection) (some cpath) =
        enter (run (length (c_str cpath))) collection (c_str cpath)
