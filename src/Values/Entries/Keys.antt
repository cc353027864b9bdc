-- ===== src/Values/Entries/Keys.antt =====
-- Keys and paths of JFormDB: what `subpath_extractor` makes of the path of a key.
use jcontainers_ng.Common.{
  ℕ, ◌≤◌, ◌<◌, ◌≡◌, refl, ap, ◌∙◌, Bool, true, false, ◌==◌, if◌then◌else◌, Option, none, some, List,
  [], ◌∷◌, ◌++◌, length, arith,
}
use jcontainers_ng.Index.{done}
use jcontainers_ng.Item.{Reals, Item}
use jcontainers_ng.Forms.Strings.{Mods}
use jcontainers_ng.Paths.{Store}
use jcontainers_ng.Paths.Parse.{is_key_end, parse_range, parse_path, make_cstring_safe}
use jcontainers_ng.Paths.Access.{get, access_constant, retrieve, constant_access, recurs}
use jcontainers_ng.Paths.Segments.{none_pass, find_if-append}
use jcontainers_ng.Paths.Constant.{c_str_all, take_all}
use jcontainers_ng.Values.{has_path, solved_value_type, resolve_getter}
use jcontainers_ng.Values.Entries.{
  drop_location, half_split_if, storage_name_max, from_separator, after_dot, name_and_rest,
  subpath_extractor, find_entry, has_entry_path, solve_entry_getter,
}

-- The path of a key of an entry.
abbrev pub entry_path : List ℕ → List ℕ → List ℕ
entry_path storage_name key = b'.' ∷ (storage_name ++ (b'.' ∷ key))

half_split_if-append :
    (test : ℕ → Bool) (s : List ℕ) (d : ℕ) (t : List ℕ)
    → none_pass test s ≡ true
    → test d ≡ true
    → half_split_if test (s ++ (d ∷ t)) ≡ (s, t)
unfolding half_split_if
half_split_if-append test s d t n e = ap drop_location (find_if-append test s (d ∷ t) n e)

pub subpath_extractor-entry_path :
    (name : List ℕ) (c : ℕ) (key : List ℕ) (is_path : Bool)
    → 0 < length name
    → length name ≤ storage_name_max
    → none_pass is_key_end name ≡ true
    → none_pass (λ c. c == 0) (entry_path name (c ∷ key)) ≡ true
    → subpath_extractor (some (entry_path name (c ∷ key))) is_path
      ≡ some (record { storage_name = name; rest = if is_path then b'.' ∷ c ∷ key else c ∷ key })
unfolding subpath_extractor after_dot name_and_rest none_pass
subpath_extractor-entry_path [] c key is_path h l n z = absurd (omega arith)
subpath_extractor-entry_path (a ∷ name) c key is_path h l n z =
    let dot : ℕ → Bool = λ c. c == b'.' in
    let input = (a ∷ name) ++ (b'.' ∷ c ∷ key) in
    ap (λ path. after_dot is_path (half_split_if dot path))
      (c_str_all (entry_path (a ∷ name) (c ∷ key)) z)
    ∙ ap (after_dot is_path) (half_split_if-append dot [] b'.' input refl refl)
    ∙ ap (name_and_rest is_path input)
        (half_split_if-append is_key_end (a ∷ name) b'.' (c ∷ key) n refl)
    ∙ ap
        (λ first. some (record {
          storage_name = first;
          rest = if is_path then from_separator input else c ∷ key;
        }))
        (take_all storage_name_max (a ∷ name) l)
    ∙ ap
        (λ found.
          some (record { storage_name = a ∷ name; rest = if is_path then found.1 else c ∷ key }))
        (find_if-append is_key_end (a ∷ name) (b'.' ∷ c ∷ key) n refl)

pub none_pass-after :
    (test : ℕ → Bool) (s : List ℕ) (d c : ℕ) (t : List ℕ)
    → none_pass test (s ++ (d ∷ c ∷ t)) ≡ true
    → test c ≡ false
unfolding none_pass
none_pass-after test [] d c t h = ground arith
none_pass-after test (a ∷ s) d c t h = none_pass-after test s d c t (ground arith)

-- A key that starts with neither a dot nor a bracket is not a path.
parse_range-key :
    (mods : Mods) (tail : List ℕ) (c : ℕ) (key : List ℕ)
    → is_key_end c ≡ false
    → parse_range mods tail (c ∷ key) ≡ none
unfolding parse_range
parse_range-key mods tail c [] e = refl
parse_range-key mods tail c (d ∷ key) e = ground arith

has_path-key :
    {R : Type 0} (mods : Mods) (s : Store R) (obj : Option ℕ) (c : ℕ) (key : List ℕ)
    → is_key_end c ≡ false
    → (c == 0) ≡ false
    → has_path mods s obj (some (c ∷ key)) ≡ done (some false)
unfolding has_path solved_value_type get access_constant retrieve parse_path constant_access recurs
    make_cstring_safe
has_path-key mods s none c key e z = refl
has_path-key mods s (some o) c key e z = rw (z, has_path) (rw (parse_range-key mods _ c _ e) refl)

-- The path of a key in a storage, whose name is not empty, has at most 254 bytes and neither dots nor
-- brackets, where the key starts with neither and the path has no zero byte: `hasPath` of JFormDB
-- answers false whatever the entry holds, while the getters read the entry along the path that starts
-- at the key's dot.
pub has_entry_path-key :
    {R : Type 0} (r : Reals) (mods : Mods) (read_as : Item r.Real → R) (s : Store r.Real)
    (root form : ℕ) (name : List ℕ) (c : ℕ) (key : List ℕ) (t : R)
    → 0 < length name
    → length name ≤ storage_name_max
    → none_pass is_key_end name ≡ true
    → is_key_end c ≡ false
    → none_pass (λ c. c == 0) (entry_path name (c ∷ key)) ≡ true
    → (has_entry_path mods s root form (some (entry_path name (c ∷ key))) ≡ done (some false))
      × (solve_entry_getter r mods read_as s root form (some (entry_path name (c ∷ key))) t
          ≡ resolve_getter r mods read_as s
              (find_entry s root (some name) form)
              (some (b'.' ∷ c ∷ key))
              t)
unfolding has_entry_path solve_entry_getter
has_entry_path-key r mods read_as s root form name c key t h l n e z = (
  rw (subpath_extractor-entry_path name c key false h l n z)
      (has_path-key mods s _ c key e (none_pass-after (λ c. c == 0) (b'.' ∷ name) b'.' c key z)),
  rw (subpath_extractor-entry_path name c key true h l n z) refl,
)
