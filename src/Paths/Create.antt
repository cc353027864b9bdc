-- ===== src/Paths/Create.antt =====
-- `creative_accessor` of collections/access.cpp along names that are missing.
use jcontainers_ng.Common.{
  ℕ, zero, suc, ◌+◌, ◌≤◌, ◌<◌, ◌≡◌, ◌≢◌, refl, ap, sym, ◌∙◌, true, false, Option, none, some, List,
  [], ◌∷◌, ◌==◌, arith, length, inl, inr, ◌⊎◌,
}
use jcontainers_ng.Index.{Exec, done, ◌>>=◌}
use jcontainers_ng.Item.{Item, blank, object}
use jcontainers_ng.Maps
use jcontainers_ng.Forms.Strings.{Mods}
use jcontainers_ng.Paths.{
  string_key, Container, map, Store, u_access_value, u_assign_value, write, name_lt,
}
use jcontainers_ng.Paths.Parse.{
  KeyAndRest, parse_range, parse_path, after_cstring, string_path_length_max,
}
use jcontainers_ng.Paths.Access.{
  AccessInfo, creative, creative_access, fill, create, recurs, retrieve, access_creative, get,
  when_found, write_item, assign,
}
use jcontainers_ng.Paths.Segments.{
  Segment, named, print_path, AreWritable, none_pass, parse_range-shorter,
  parse_range-print_segment,
}
use jcontainers_ng.Paths.Walk.{walk, walk_value}
use jcontainers_ng.Paths.Constant.{get-walk, make_cstring_safe_all}
use jcontainers_ng.Paths.Assign.{name_lt-IsComparer, u_get-u_write_self}

abbrev pub named_all : List (List ℕ) → List Segment
named_all [] = []
named_all (n ∷ ns) = named n ∷ named_all ns

-- What is parsed after a key.
abbrev key_rest : List ℕ → List (List ℕ) → KeyAndRest
key_rest n ns = record { key = string_key n; rest_of_path = some (print_path (named_all ns)) }

write_same : {R : Type 0} (s : Store R) (a : ℕ) (c : Container R) → (write s a c).objects a ≡ c
write_same s a c = let e : (a == a) ≡ true = ground arith in rw e refl

write_other :
    {R : Type 0} (s : Store R) (a b : ℕ) (c : Container R)
    → a ≢ b
    → (write s a c).objects b ≡ s.objects b
write_other s a b c h = let e : (a == b) ≡ false = ground arith in rw e refl

module _ {R : Type 0} (mods : Mods) (tail : List ℕ) where
  abbrev run_from : ℕ → Store R → ℕ → KeyAndRest → Exec (Option (Option AccessInfo × Store R))
  run_from fuel s c k = creative_access mods tail s c (some k) >>= λ r.
      recurs mods tail (creative_access mods tail) fuel r.1 r.0 (some k) c

  -- What the creative search from `c` along missing names leaves.
  record Created (s : Store R) (c : ℕ) (n : List ℕ) (ns : List (List ℕ)) (fuel : ℕ) : Type 0 where
    info : AccessInfo
    store : Store R
    contents : List (List ℕ × Item R)
    last : List ℕ
    runs : run_from fuel s c (key_rest n ns) ≡ done (some (some info, store))
    is_map : store.objects info.collection ≡ map contents
    is_name : info.key ≡ string_key last
    fresh : (info.collection ≡ c) ⊎ (s.next_address ≤ info.collection)
    kept : (x : ℕ) → x ≢ c → x < s.next_address → store.objects x ≡ s.objects x
    leads :
        (container : Container R) (v : Item R)
        → u_access_value container info.key ≡ some v
        → walk_value (write store info.collection container) c (named n) (named_all ns) ≡ some v

  abbrev one_written : List (List ℕ × Item R) → List ℕ → List (List ℕ × Item R)
  one_written m n = Maps.u_write name_lt blank m n (λ itm. blank)

  abbrev linked : List (List ℕ × Item R) → List ℕ → ℕ → List (List ℕ × Item R)
  linked m n a = Maps.u_write name_lt blank (one_written m n) n (λ itm. object (some a))

  abbrev extended : Store R → ℕ → List (List ℕ × Item R) → List ℕ → Store R
  extended s c m n =
      let a = s.next_address in
      write (record (write (write s c (map (one_written m n))) a (map [])) { next_address = a + 1 })
        c (map (linked m n a))

  creative_access-last :
      (s : Store R) (c : ℕ) (m : List (List ℕ × Item R)) (n : List ℕ)
      → s.objects c ≡ map m
      → Maps.u_get name_lt m n ≡ none
      → creative_access mods tail s c (some (key_rest n []))
        ≡ done (some none, write s c (map (one_written m n)))
  unfolding creative_access u_access_value u_assign_value parse_path parse_range fill
  creative_access-last s c m n e missing = rw (e, creative_access) (rw missing (rw (e, ◌>>=◌) refl))

  fill-map :
      (s : Store R) (c : ℕ) (m : List (List ℕ × Item R)) (n : List ℕ) (k : KeyAndRest) (n' : List ℕ)
      → s.objects c ≡ map m
      → k.key ≡ string_key n'
      → fill mods tail s c (string_key n) (some k)
        ≡ done (
          some (some s.next_address),
          write
              (record (write s s.next_address (map [])) { next_address = s.next_address + 1 })
              c
              (map (Maps.u_write name_lt blank m n (λ itm. object (some s.next_address)))),
        )
  unfolding fill u_assign_value create
  fill-map s c m n k n' e f = rw (e, fill) (rw f refl)

  creative_access-more :
      (s : Store R) (c : ℕ) (m : List (List ℕ × Item R)) (n n' : List ℕ) (ns : List (List ℕ))
      → AreWritable (named_all (n' ∷ ns))
      → s.objects c ≡ map m
      → Maps.u_get name_lt m n ≡ none
      → creative_access mods tail s c (some (key_rest n (n' ∷ ns)))
        ≡ done (some (some s.next_address), extended s c m n)
  unfolding creative_access u_access_value u_assign_value parse_path
  creative_access-more s c m n n' ns w e missing =
      let read = parse_range-print_segment mods tail (named n') (named_all ns) w.0 in
      let m' = one_written m n in
      rw (e, creative_access)
        (rw missing (
          rw read (
            rw (e, ◌>>=◌)
              (fill-map (write s c (map m')) c m' n (key_rest n' ns) n' (write_same s c (map m'))
                refl))))

  extended-new :
      (s : Store R) (c : ℕ) (m : List (List ℕ × Item R)) (n : List ℕ)
      → c ≢ s.next_address
      → (extended s c m n).objects s.next_address ≡ map []
  extended-new s c m n h =
      let a = s.next_address in
      let other : (c == a) ≡ false = ground arith in
      let self : (a == a) ≡ true = ground arith in rw other (rw self refl)

  extended-same :
      (s : Store R) (c : ℕ) (m : List (List ℕ × Item R)) (n : List ℕ)
      → (extended s c m n).objects c ≡ map (linked m n s.next_address)
  extended-same s c m n = let self : (c == c) ≡ true = ground arith in rw self refl

  extended-old :
      (s : Store R) (c : ℕ) (m : List (List ℕ × Item R)) (n : List ℕ) (x : ℕ)
      → x ≢ c
      → x ≢ s.next_address
      → (extended s c m n).objects x ≡ s.objects x
  extended-old s c m n x h k =
      let first : (c == x) ≡ false = ground arith in
      let second : (s.next_address == x) ≡ false = ground arith in rw first (rw second refl)

  -- One missing name more: the map made for it is where the rest of the search goes on.
  creates-more :
      (ns : List (List ℕ)) (n n' : List ℕ) (fuel : ℕ) (s : Store R) (c : ℕ)
      (m : List (List ℕ × Item R))
      → AreWritable (named_all (n' ∷ ns))
      → s.objects c ≡ map m
      → Maps.u_get name_lt m n ≡ none
      → c < s.next_address
      → Created (extended s c m n) s.next_address n' ns fuel
      → Created s c n (n' ∷ ns) (suc fuel)
  unfolding recurs walk walk_value parse_path u_access_value
  creates-more ns n n' fuel s c m w e missing old rest =
      let a = s.next_address in
      let far : a ≤ rest.info.collection = elim rest.fresh [
        | inl here ↦ omega (arith, here)
        | inr new ↦ omega (arith, new)
      ] in
      let read = parse_range-print_segment mods tail (named n') (named_all ns) w.0 in
      let linked_there = rest.kept c (omega arith) (omega arith) ∙ extended-same s c m n in
      record {
        info = rest.info;
        store = rest.store;
        contents = rest.contents;
        last = rest.last;
        runs =
            rw (creative_access-more s c m n n' ns w e missing, ◌>>=◌) (rw (read, ◌>>=◌) rest.runs);
        is_map = rest.is_map;
        is_name = rest.is_name;
        fresh = inr far;
        kept = λ x d b.
            rest.kept x (omega arith) (omega arith) ∙ extended-old s c m n x d (omega arith);
        leads = λ container v r.
            rw
              (
                write_other rest.store rest.info.collection c container (omega (arith, far, old))
                    ∙ linked_there,
                walk_value,
                walk,
              )
              (rw
                (u_get-u_write_self name_lt name_lt-IsComparer blank (object (some a))
                  (one_written m n) n)
                (rest.leads container v r));
      }

  creates :
      (ns : List (List ℕ)) (n : List ℕ) (fuel : ℕ) (s : Store R) (c : ℕ)
      (m : List (List ℕ × Item R))
      → AreWritable (named_all ns)
      → s.objects c ≡ map m
      → Maps.u_get name_lt m n ≡ none
      → c < s.next_address
      → length (print_path (named_all ns)) ≤ fuel
      → Created s c n ns fuel
  unfolding recurs walk walk_value parse_path Maps.u_get
  creates [] n fuel s c m w e missing old h = record {
    info = record { collection = c; key = string_key n };
    store = write s c (map (one_written m n));
    contents = one_written m n;
    last = n;
    runs = rw (creative_access-last s c m n e missing, ◌>>=◌) (stops fuel);
    is_map = write_same s c (map (one_written m n));
    is_name = refl;
    fresh = inl refl;
    kept = λ x d b. write_other s c x (map (one_written m n)) (λ p. d (sym p));
    leads = λ container v r. rw (write_same (write s c (map (one_written m n))) c container) r;
  }
    where
      stops :
          (fuel : ℕ)
          → recurs mods tail
              (creative_access mods tail)
              fuel
              (write s c (map (one_written m n)))
              (some none)
              (some (key_rest n []))
              c
            ≡ done (
                some (
                  some (record { collection = c; key = string_key n }),
                  write s c (map (one_written m n)),
                ))
      stops zero = refl
      stops (suc fuel) = refl
  creates (n' ∷ ns) n zero s c m w e missing old h = absurd (omega arith)
  creates (n' ∷ ns) n (suc fuel) s c m w e missing old h =
      let t = extended s c m n in
      let there = extended-new s c m n (omega arith) in
      let read = parse_range-print_segment mods tail (named n') (named_all ns) w.0 in
      let shorter =
        parse_range-shorter mods tail (print_path (named_all (n' ∷ ns))) (key_rest n' ns) read in
      creates-more ns n n' fuel s c m w e missing old (
        creates ns n' fuel t s.next_address [] w.1 there refl (omega arith)
          (omega (arith, shorter)))

module _ {R : Type 0} (mods : Mods) where
  -- The creative assignment, the reading that follows it, and the other containers.
  pub assign-creative_others :
      (s : Store R) (target : ℕ) (m : List (List ℕ × Item R)) (n : List ℕ) (ns : List (List ℕ))
      (value : Item R)
      → AreWritable (named_all (n ∷ ns))
      → none_pass (λ c. c == 0) (print_path (named_all (n ∷ ns))) ≡ true
      → length (print_path (named_all (n ∷ ns))) ≤ string_path_length_max
      → s.objects target ≡ map m
      → Maps.u_get name_lt m n ≡ none
      → target < s.next_address
      → let path = some (print_path (named_all (n ∷ ns))) in
        (s' : Store R) × (assign mods s target path value creative ≡ done (some (true, s')))
        × (get mods s' target path ≡ done (some (some value)))
        × ((other : ℕ)
            → other ≢ target
            → other < s.next_address
            → s'.objects other ≡ s.objects other)
  unfolding assign write_item access_creative retrieve parse_path u_assign_value u_access_value
  assign-creative_others s target m n ns value w z b e missing old =
      let path = print_path (named_all (n ∷ ns)) in
      let tail = after_cstring (some path) in
      let read = parse_range-print_segment mods tail (named n) (named_all ns) w.0 in
      let shorter = parse_range-shorter mods tail path (key_rest n ns) read in
      let created =
        creates mods tail ns n (length path) s target m w.1 e missing old
          (omega (arith, shorter)) in
      let info = created.info in
      let filled = map (Maps.u_write name_lt blank created.contents created.last (λ itm. value)) in
      let s' = write created.store info.collection filled in
      let found : u_access_value filled info.key ≡ some value =
        rw (created.is_name) (
          u_get-u_write_self name_lt name_lt-IsComparer blank value created.contents
            created.last) in
      let apart : (other : ℕ) → other ≢ target → other < s.next_address → info.collection ≢ other =
        λ other d used. elim created.fresh [
          | inl same ↦ omega (arith, same, d)
          | inr new ↦ omega (arith, new, used)
        ] in
      (
        s',
        rw (make_cstring_safe_all path z b, access_creative)
            (rw (read, ◌>>=◌)
              (rw (created.runs, when_found)
                (rw (created.is_map, write_item) (rw (created.is_name, u_assign_value) refl)))),
        get-walk mods s' target (named n) (named_all ns) w z b
            ∙ ap (λ v. done (some v)) (created.leads filled value found),
        λ other d used.
            write_other created.store info.collection other filled (apart other d used)
            ∙ created.kept other d used,
      )

  -- A written path of names without a zero byte, of at most 1024 bytes, whose first name is missing
  -- from the map it starts at: the creative assignment succeeds, the constant reading of the path
  -- then finds the value, and no other container that was in use has changed.
  pub assign-creative :
      (s : Store R) (target : ℕ) (m : List (List ℕ × Item R)) (n : List ℕ) (ns : List (List ℕ))
      (value : Item R) (other : ℕ)
      → AreWritable (named_all (n ∷ ns))
      → none_pass (λ c. c == 0) (print_path (named_all (n ∷ ns))) ≡ true
      → length (print_path (named_all (n ∷ ns))) ≤ string_path_length_max
      → s.objects target ≡ map m
      → Maps.u_get name_lt m n ≡ none
      → target < s.next_address
      → other ≢ target
      → other < s.next_address
      → let path = some (print_path (named_all (n ∷ ns))) in
        (s' : Store R) × (assign mods s target path value creative ≡ done (some (true, s')))
        × (get mods s' target path ≡ done (some (some value)))
        × (s'.objects other ≡ s.objects other)
  assign-creative s target m n ns value other w z b e missing old d used =
      let (s', set, there, kept) =
        assign-creative_others s target m n ns value w z b e missing old in
      (s', set, there, kept other d used)
