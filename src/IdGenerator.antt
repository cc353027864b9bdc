-- ===== src/IdGenerator.antt =====
-- src/JContainers/src/object/id_generator.h: the allocator of public handles. The deque of free
-- ranges is a list, an iterator into it is its offset, and a failed assertion is `none`.
pub mod Covers
pub mod Take
pub mod Reuse
pub mod Search
pub mod Iterator
pub mod Trace
pub mod Tests
use jcontainers_ng.Common.{
  ℕ, zero, suc, ◌+◌, ◌-◌, ◌%◌, Bool, true, false, not, ◌&&◌, Option, none, some, List, [], ◌∷◌, ltb,
  leb, ◌==◌, if◌then◌else◌, length, get_elem?, set,
}

-- An identifier is an unsigned word of 32 bits, `HandleT`.
abbrev pub id_mod : ℕ
id_mod = 4294967296

abbrev pub next_id : ℕ → ℕ
next_id v = (v + 1) % id_mod

abbrev pub prev_id : ℕ → ℕ
prev_id v = (v + (id_mod - 1)) % id_mod

pub record Range : Type 0 where
  pub first : ℕ
  pub last : ℕ

abbrev pub range_empty : Range → Bool
range_empty r = ltb r.last r.first

-- `begin` is `first`, and `end` is one past `last`.
abbrev pub range_end : Range → ℕ
range_end r = next_id r.last

-- `range::new_id` behind its assertion.
abbrev pub range_new_id : Range → Option (ℕ × Range)
range_new_id r =
    if range_empty r then none else some (r.first, record r { first = next_id r.first })

pub record IdGenerator : Type 0 where
  pub empty_ranges : List Range
  pub current_range : ℕ

-- `erase` and `insert` of a deque, at an offset.
abbrev pub erase_at {ℓ} : {A : Type ℓ} → List A → ℕ → List A
erase_at [] i = []
erase_at (x ∷ xs) zero = xs
erase_at (x ∷ xs) (suc i) = x ∷ erase_at xs i

abbrev pub insert_at {ℓ} : {A : Type ℓ} → List A → ℕ → A → List A
insert_at xs zero a = a ∷ xs
insert_at [] (suc i) a = a ∷ []
insert_at (x ∷ xs) (suc i) a = x ∷ insert_at xs i a

-- What is left of the current range is written back, or the range goes and the iterator is reset.
abbrev pub after_take : List Range → ℕ → Range → IdGenerator
after_take rs i r =
    if range_empty r
    then (let rest = erase_at rs i in
        record { empty_ranges = rest; current_range = if i == length rest then 0 else i })
    else record { empty_ranges = set rs i r; current_range = i }

unfoldable pub new_id : IdGenerator → Option (ℕ × IdGenerator)
new_id g = elim (get_elem? g.empty_ranges g.current_range) [
  | none ↦ none
  | some r ↦ elim (range_new_id r) [
    | none ↦ none
    | some (num, r') ↦ some (num, after_take g.empty_ranges g.current_range r')
  ]
]

pub u_clear : ℕ → ℕ → IdGenerator
u_clear min_identifier max_identifier = record {
  empty_ranges = record { first = min_identifier; last = max_identifier } ∷ [];
  current_range = 0;
}

-- The first offset whose range does not start before `val`.
unfoldable pub lower_bound : List Range → ℕ → ℕ
lower_bound [] val = 0
lower_bound (r ∷ rs) val = if ltb r.first val then suc (lower_bound rs val) else 0

-- The first offset whose range starts after `val`.
unfoldable pub upper_bound : List Range → ℕ → ℕ
upper_bound [] val = 0
upper_bound (r ∷ rs) val = if leb r.first val then suc (upper_bound rs val) else 0

-- The range before an offset.
abbrev pub before : List Range → ℕ → Option Range
before rs zero = none
before rs (suc i) = get_elem? rs i

unfoldable pub is_free_id : IdGenerator → ℕ → Bool
is_free_id g val = elim (before g.empty_ranges (upper_bound g.empty_ranges val)) [
  | none ↦ false
  | some r ↦ leb r.first val && ltb val (range_end r)
]

pub no_overlap : List Range → Bool
no_overlap [] = true
no_overlap (r ∷ []) = true
no_overlap (r ∷ s ∷ rs) =
    (ltb r.first s.first && ltb (range_end r) (range_end s)) && no_overlap (s ∷ rs)

abbrev pub is_nil {ℓ} : {A : Type ℓ} → List A → Bool
is_nil [] = true
is_nil (x ∷ xs) = false

pub is_valid : IdGenerator → Bool
is_valid g =
    not (is_nil g.empty_ranges)
    && not (g.current_range == length g.empty_ranges)
    && no_overlap g.empty_ranges

-- `leftRange` and `rightRange` of `reuse_id`: the neighbours that touch `val`.
abbrev pub touching_left : Option Range → ℕ → Option Range
touching_left none val = none
touching_left (some r) val = if range_end r == val then some r else none

abbrev pub touching_right : Option Range → ℕ → Option Range
touching_right none val = none
touching_right (some r) val = if prev_id r.first == val then some r else none

-- A write through `leftRange`.
abbrev pub set_before : List Range → ℕ → Range → List Range
set_before rs zero r = rs
set_before rs (suc i) r = set rs i r

-- The four branches, at `right = i`.
abbrev pub reuse_branch : IdGenerator → ℕ → ℕ → Option Range → Option Range → IdGenerator
reuse_branch g val i none none = record {
  empty_ranges = insert_at g.empty_ranges i (record { first = val; last = val });
  current_range = g.current_range + (if ltb g.current_range i then 0 else 1);
}
reuse_branch g val i (some l) (some r) = record {
  empty_ranges = erase_at (set_before g.empty_ranges i (record l { last = r.last })) i;
  current_range = g.current_range - (if ltb g.current_range i then 0 else 1);
}
reuse_branch g val i (some l) none = record g {
  empty_ranges = set_before g.empty_ranges i (record l { last = val });
}
reuse_branch g val i none (some r) = record g {
  empty_ranges = set g.empty_ranges i (record r { first = val });
}

abbrev pub reuse_at : IdGenerator → ℕ → ℕ → IdGenerator
reuse_at g val i =
    reuse_branch g val i (touching_left (before g.empty_ranges i) val)
      (touching_right (get_elem? g.empty_ranges i) val)

unfoldable pub reuse_id : IdGenerator → ℕ → IdGenerator
reuse_id g val = reuse_at g val (lower_bound g.empty_ranges val)

-- What is saved is the ranges and the offset of the iterator; `load` knows version 1 only.
pub save : IdGenerator → List Range × ℕ
save g = (g.empty_ranges, g.current_range)

pub load : ℕ → List Range × ℕ → Option IdGenerator
load version (ranges, curr_idx) =
    if version == 1 then some (record { empty_ranges = ranges; current_range = curr_idx }) else none
