-- ===== src/Paths/Solve.antt =====
-- `path_resolving::resolve` on paths of names, against the walk of `ca::get`.
use jcontainers_ng.Common.{
  ℕ, zero, suc, ◌+◌, ◌≤◌, ◌<◌, ◌≡◌, refl, ap, ◌∙◌, true, Option, none, some, List, [], ◌∷◌, ◌++◌,
  arith, length, ◌==◌, Option-cases, inl, inr,
}
use jcontainers_ng.Index.{Exec, done, ◌>>=◌}
use jcontainers_ng.Item.{Reals, Item, object, object_of}
use jcontainers_ng.Forms.Strings.{Mods}
use jcontainers_ng.Maps
use jcontainers_ng.Paths.{
  Container, array, map, form_map, integer_map, Store, u_access_value, string_key, name_lt,
}
use jcontainers_ng.Paths.Parse.{is_key_end, string_path_length_max}
use jcontainers_ng.Paths.Segments.{
  Segment, named, indexed, print_path, AreWritable, none_pass, find_if-append, print_path-Stops,
}
use jcontainers_ng.Paths.Walk.{walk, walk_value}
use jcontainers_ng.Paths.Constant.{take_all, drop_all, c_str_all, get-walk}
use jcontainers_ng.Paths.Create.{named_all}
use jcontainers_ng.Paths.Access.{get}
use jcontainers_ng.Paths.Resolve.{
  Node, root, by_name, State, Visits, get_node, operator_name, map_name, index_text, map_rule,
  array_rule, other_rules, operator_rule, enter, proceed, after_rules, after_operator, round, run,
  resolve,
}

pub length-append : (xs ys : List ℕ) → length (xs ++ ys) ≡ length xs + length ys
length-append [] ys = omega arith
length-append (x ∷ xs) ys = omega (arith, length-append xs ys)

module _ (r : Reals) where
  open r use {Real}

  operator_name-dot : (s : List ℕ) → operator_name r (b'.' ∷ s) ≡ none
  unfolding operator_name
  operator_name-dot [] = refl
  operator_name-dot (c ∷ s) = refl

  index_text-dot : (s : List ℕ) → index_text r (b'.' ∷ s) ≡ none
  unfolding index_text
  index_text-dot [] = refl
  index_text-dot (c ∷ []) = refl
  index_text-dot (c ∷ d ∷ s) = refl

  map_name-named :
      (n : List ℕ) (gs : List Segment)
      → 0 < length n
      → none_pass is_key_end n ≡ true
      → map_name r (print_path (named n ∷ gs)) ≡ some (n, print_path gs)
  unfolding map_name
  map_name-named [] gs h p = absurd (omega arith)
  map_name-named (c ∷ n) gs h p =
      let found = find_if-append is_key_end (c ∷ n) (print_path gs) p (print_path-Stops gs) in
      rw found (ap some found)

  module _ (mods : Mods) (s : Store Real) (tail : List ℕ) where
    pub get_node-name :
        (n : List ℕ) (c : ℕ)
        → get_node r s (by_name n) (some c) ≡ u_access_value (s.objects c) (string_key n)
    unfolding get_node
    get_node-name n c = go (s.objects c)
      where
        go :
            (k : Container Real)
            → (elim k [
              | map m ↦ Maps.u_get name_lt m n
              | array xs ↦ none
              | form_map m ↦ none
              | integer_map m ↦ none
            ])
              ≡ u_access_value k (string_key n)
        go (map m) = unfold u_access_value in refl
        go (array xs) = unfold u_access_value in refl
        go (form_map m) = unfold u_access_value in refl
        go (integer_map m) = unfold u_access_value in refl

    operator_rule-dot :
        (visit : ℕ → List ℕ → Exec (Option (Visits r))) (path : List ℕ) (st : State r)
        → operator_rule r mods s visit tail (b'.' ∷ path) st ≡ done (some none)
    unfolding operator_rule
    operator_rule-dot visit path st = rw (operator_name-dot path, operator_rule) refl

    array_rule-dot :
        (path : List ℕ) (st : State r) → array_rule r mods s tail (b'.' ∷ path) st ≡ done none
    unfolding array_rule
    array_rule-dot path st = rw (index_text-dot path, array_rule) refl

    -- The state after a name was read.
    abbrev pub at_name : List ℕ → ℕ → List Segment → State r
    at_name n c gs = record {
      path = some (print_path gs);
      node_getter = by_name n;
      collection = some c;
    }

    module _ (n : List ℕ) (gs : List Segment) (w : 0 < length n) (p : none_pass is_key_end n ≡ true)
        (fuel : ℕ) (node : Node r) (c : Option ℕ) where
      abbrev before : State r
      before = record {
        path = some (print_path (named n ∷ gs));
        node_getter = node;
        collection = c;
      }

      map_rule-object :
          (itm : Item Real) (o : ℕ)
          → get_node r s node c ≡ some itm
          → object_of itm ≡ some o
          → map_rule r mods s (print_path (named n ∷ gs)) before ≡ some (at_name n o gs)
      unfolding map_rule
      map_rule-object itm o there refers =
          rw (map_name-named n gs w p, map_rule) (rw there (rw refers refl))

      map_rule-plain :
          (itm : Item Real)
          → get_node r s node c ≡ some itm
          → object_of itm ≡ none
          → map_rule r mods s (print_path (named n ∷ gs)) before ≡ none
      unfolding map_rule
      map_rule-plain itm there plain =
          rw (map_name-named n gs w p, map_rule) (rw there (rw plain refl))

      map_rule-missing :
          get_node r s node c ≡ none → map_rule r mods s (print_path (named n ∷ gs)) before ≡ none
      unfolding map_rule
      map_rule-missing missing = rw (map_name-named n gs w p, map_rule) (rw missing refl)

      -- A round on a name: from an object the search goes on, otherwise the visit is a null pointer.
      run-object :
          (itm : Item Real) (o : ℕ)
          → get_node r s node c ≡ some itm
          → object_of itm ≡ some o
          → run r mods s (suc fuel) tail before
            ≡ proceed r mods s (run r mods s fuel) tail (at_name n o gs)
      unfolding run round other_rules after_operator proceed after_rules
      run-object itm o there refers =
          rw
            (
              operator_rule-dot (enter r mods s (run r mods s fuel)) (n ++ print_path gs) before,
              ◌>>=◌,
              after_operator,
            )
            (rw (map_rule-object itm o there refers, other_rules, after_rules) refl)

      run-none :
          map_rule r mods s (print_path (named n ∷ gs)) before ≡ none
          → run r mods s (suc fuel) tail before ≡ done (some (none ∷ []))
      unfolding run round other_rules after_operator proceed after_rules
      run-none fails =
          rw
            (
              operator_rule-dot (enter r mods s (run r mods s fuel)) (n ++ print_path gs) before,
              ◌>>=◌,
              after_operator,
            )
            (rw (fails, other_rules)
              (rw (array_rule-dot (n ++ print_path gs) before, after_rules) refl))

    after-walk :
        (ns : List (List ℕ)) (n : List ℕ) (c fuel : ℕ)
        → AreWritable (named_all ns)
        → length (print_path (named_all ns)) ≤ fuel
        → proceed r mods s (run r mods s fuel) tail (at_name n c (named_all ns))
          ≡ done (some (walk_value s c (named n) (named_all ns) ∷ []))
    unfolding walk_value walk proceed
    after-walk [] n c fuel w h = rw (get_node-name n c) refl
    after-walk (n' ∷ ns) n c zero w h = absurd (omega arith)
    after-walk (n' ∷ ns) n c (suc fuel) w h =
        let gs = named_all ns in
        let node = get_node-name n c in
        elim (Option-cases (u_access_value (s.objects c) (string_key n))) [
          | inl missing ↦
              run-none n' gs w.0.0 w.0.1 fuel (by_name n) (some c)
                (map_rule-missing n' gs w.0.0 w.0.1 fuel (by_name n) (some c) (node ∙ missing))
              ∙ rw (missing, walk_value, walk) refl
          | inr (itm, there) ↦ elim (Option-cases (object_of itm)) [
            | inl plain ↦
                run-none n' gs w.0.0 w.0.1 fuel (by_name n) (some c) (
                  map_rule-plain n' gs w.0.0 w.0.1 fuel (by_name n) (some c) itm (node ∙ there)
                    plain)
                ∙ rw (there, walk_value, walk) (rw plain refl)
            | inr (o, refers) ↦
                let shorter : length (print_path gs) ≤ fuel =
                  omega (arith, length-append n' (print_path gs)) in
                run-object n' gs w.0.0 w.0.1 fuel (by_name n) (some c) itm o (node ∙ there) refers
                ∙ after-walk ns n' o fuel w.1 shorter
                ∙ rw (there, walk_value, walk) (rw refers refl)
          ]
        ]

module _ (r : Reals) (mods : Mods) where
  open r use {Real}

  pub resolve-enter :
      (s : Store Real) (target : ℕ) (path : List ℕ)
      → none_pass (λ c. c == 0) path ≡ true
      → resolve r mods s (some target) (some path)
        ≡ enter r mods s (run r mods s (length path)) target path
  unfolding resolve
  resolve-enter s target path z = rw (c_str_all path z) refl

  -- The state that the search of a path starts in.
  abbrev pub first : ℕ → List ℕ → State r
  first target path = record {
    path = some path;
    node_getter = root target;
    collection = some target;
  }

  enter-run :
      (s : Store Real) (target fuel : ℕ) (g : Segment) (gs : List Segment)
      → length (print_path (g ∷ gs)) ≤ string_path_length_max
      → enter r mods s (run r mods s fuel) target (print_path (g ∷ gs))
        ≡ run r mods s fuel [] (first target (print_path (g ∷ gs)))
  unfolding enter
  enter-run s target fuel (named n) gs b =
      rw (drop_all string_path_length_max (print_path (named n ∷ gs)) b)
        (rw (take_all string_path_length_max (print_path (named n ∷ gs)) b) refl)
  enter-run s target fuel (indexed t i) gs b =
      rw (drop_all string_path_length_max (print_path (indexed t i ∷ gs)) b)
        (rw (take_all string_path_length_max (print_path (indexed t i ∷ gs)) b) refl)

  pub root-object :
      (s : Store Real) (target : ℕ)
      → get_node r s (root target) (some target) ≡ some (object (some target))
  unfolding get_node
  root-object s target = refl

  -- The first round of a path that starts with a name.
  pub resolve-name :
      (s : Store Real) (target : ℕ) (n : List ℕ) (gs : List Segment)
      → AreWritable (named n ∷ [])
      → none_pass (λ c. c == 0) (print_path (named n ∷ gs)) ≡ true
      → length (print_path (named n ∷ gs)) ≤ string_path_length_max
      → resolve r mods s (some target) (some (print_path (named n ∷ gs)))
        ≡ proceed r mods s
            (run r mods s (length (n ++ print_path gs)))
            []
            (at_name r mods s [] n target gs)
  resolve-name s target n gs w z b =
      resolve-enter s target (print_path (named n ∷ gs)) z
      ∙ enter-run s target (length (print_path (named n ∷ gs))) (named n) gs b
      ∙ run-object r mods s [] n gs w.0.0 w.0.1 (length (n ++ print_path gs)) (root target)
          (some target) (object (some target)) target (root-object s target) refl

  -- On a written path of names without a zero byte, of at most 1024 bytes, the two ways to read a
  -- path agree: `resolve` visits once, with what `get` answers, a null pointer for none.
  pub resolve-get :
      (s : Store Real) (target : ℕ) (n : List ℕ) (ns : List (List ℕ))
      → AreWritable (named_all (n ∷ ns))
      → none_pass (λ c. c == 0) (print_path (named_all (n ∷ ns))) ≡ true
      → length (print_path (named_all (n ∷ ns))) ≤ string_path_length_max
      → (v : Option (Item Real)) × (resolve r mods s
            (some target)
            (some (print_path (named_all (n ∷ ns))))
          ≡ done (some (v ∷ [])))
        × (get mods s target (some (print_path (named_all (n ∷ ns)))) ≡ done (some v))
  resolve-get s target n ns w z b =
      let rest = print_path (named_all ns) in
      (
        walk_value s target (named n) (named_all ns),
        resolve-name s target n (named_all ns) (w.0, tt) z b
            ∙ after-walk r mods s [] ns n target (length (n ++ rest)) w.1
                (omega (arith, length-append n rest)),
        get-walk mods s target (named n) (named_all ns) w z b,
      )
