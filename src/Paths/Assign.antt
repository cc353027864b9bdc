-- ===== src/Paths/Assign.antt =====
-- `u_assign_value` and `assign` of collections/access.h.
use jcontainers_ng.Common.{
  ℕ, ◌<◌, ◌≡◌, refl, ◌∙◌, Bool, true, false, ◌||◌, Option, none, some, List, arith, length, set,
  length-set, get_elem?-set_self, Option-cases, inl, inr, some-eq, ℤ, pos, negsuc, ltb_ℤ,
}
use jcontainers_ng.Index.{done}
use jcontainers_ng.Item.{Item, FormRef, blank}
use jcontainers_ng.Item.Text.{c_str, stricmp_lt_irrefl, stricmp_lt_split, stricmp_lt_asym}
use jcontainers_ng.Array.{u_convert_index, u_get, u_set}
use jcontainers_ng.Maps
use jcontainers_ng.Maps.{same}
use jcontainers_ng.Maps.Lookup.{IsComparer, Agree, u_get-u_write, written}
use jcontainers_ng.Forms.Strings.{Mods}
use jcontainers_ng.Paths.{
  Key, int_key, string_key, form_key, Container, array, map, form_map, integer_map, Store,
  u_access_value, u_assign_value, write, name_lt, form_lt, matches_lightweight,
}
use jcontainers_ng.Paths.Parse.{make_weak_form_id}
use jcontainers_ng.Paths.Access.{
  AccessInfo, constant, access_constant, when_found, write_item, assign,
}

-- The comparers of the three kinds of map.
pub name_lt-IsComparer : IsComparer (List ℕ) name_lt
name_lt-IsComparer = record {
  irrefl = λ a. stricmp_lt_irrefl (c_str a);
  asym = λ a b h. stricmp_lt_asym (c_str a) (c_str b) h;
  split = λ a b c h. stricmp_lt_split (c_str a) (c_str b) (c_str c) h;
}

form_lt_irrefl : (a : FormRef) → form_lt a a ≡ false
unfolding form_lt
form_lt_irrefl a = ground arith

form_lt_asym : (a b : FormRef) → form_lt a b ≡ true → form_lt b a ≡ false
unfolding form_lt
form_lt_asym a b h = ground arith

form_lt_split : (a b c : FormRef) → form_lt a c ≡ true → (form_lt a b || form_lt b c) ≡ true
unfolding form_lt
form_lt_split a b c h = ground arith

pub form_lt-IsComparer : IsComparer FormRef form_lt
form_lt-IsComparer = record { irrefl = form_lt_irrefl; asym = form_lt_asym; split = form_lt_split }

-- For a form, the lookup of a `form_ref_lightweight` matches what the comparer does not tell apart.
pub matches_lightweight-Agree :
    (id : ℕ) → 0 < id → Agree form_lt matches_lightweight (make_weak_form_id id)
unfolding form_lt matches_lightweight
matches_lightweight-Agree id h none before = ground arith
matches_lightweight-Agree id h (some e) before = ground arith

ltb_ℤ_irrefl : (a : ℤ) → ltb_ℤ a a ≡ false
ltb_ℤ_irrefl a = ground arith

ltb_ℤ_asym : (a b : ℤ) → ltb_ℤ a b ≡ true → ltb_ℤ b a ≡ false
ltb_ℤ_asym a b h = ground arith

ltb_ℤ_split : (a b c : ℤ) → ltb_ℤ a c ≡ true → (ltb_ℤ a b || ltb_ℤ b c) ≡ true
ltb_ℤ_split a b c h = ground arith

pub ltb_ℤ-IsComparer : IsComparer ℤ ltb_ℤ
ltb_ℤ-IsComparer = record { irrefl = ltb_ℤ_irrefl; asym = ltb_ℤ_asym; split = ltb_ℤ_split }

-- A key that was written is found.
pub u_get-u_write_self :
    {K V : Type 0} (lt : K → K → Bool) (o : IsComparer K lt) (new v : V) (m : List (K × V))
    (key : K)
    → Maps.u_get lt (Maps.u_write lt new m key (λ itm. v)) key ≡ some v
u_get-u_write_self {V = V} lt o new v m key =
    let self : same lt key key ≡ true = rw (o.irrefl key) refl in
    u_get-u_write lt o new m key key (λ itm. v) ∙ rw self (constant_write (Maps.u_get lt m key))
  where
    constant_write : (w : Option V) → some (written new (λ itm. v) w) ≡ some v
    constant_write none = refl
    constant_write (some w) = refl

module _ {R : Type 0} where
  u_convert_index-lt :
      (xs : List (Item R)) (i : ℤ) (j : ℕ) → u_convert_index xs i ≡ some j → j < length xs
  unfolding u_convert_index
  u_convert_index-lt xs (pos n) j e = ground arith
  u_convert_index-lt xs (negsuc n) j e = ground arith

  u_convert_index-set :
      (xs : List (Item R)) (i : ℤ) (j : ℕ) (v : Item R)
      → u_convert_index (set xs j v) i ≡ u_convert_index xs i
  unfolding u_convert_index
  u_convert_index-set xs (pos n) j v = rw (length-set xs j v) refl
  u_convert_index-set xs (negsuc n) j v = rw (length-set xs j v) refl

  u_get-set :
      (xs : List (Item R)) (i : ℤ) (j : ℕ) (v : Item R)
      → u_convert_index xs i ≡ some j
      → u_get (set xs j v) i ≡ some v
  unfolding u_get
  u_get-set xs i j v e =
      rw (u_convert_index-set xs i j v ∙ e, u_get)
        (get_elem?-set_self xs j v (u_convert_index-lt xs i j e))

  -- What was assigned is read.
  pub u_access_value-u_assign_value :
      (c c' : Container R) (key : Key) (v : Item R)
      → u_assign_value c key v ≡ some c'
      → u_access_value c' key ≡ some v
  unfolding u_access_value u_assign_value u_set
  u_access_value-u_assign_value (array xs) c' (int_key i) v e =
      elim (Option-cases (u_convert_index xs i)) [
        | inl out ↦ let e' = rw (out, u_set) at e in cc
        | inr (j, there) ↦
            let e' : array (set xs j v) ≡ c' = some-eq (rw (there, u_set) at e) in
            rw (← e') (u_get-set xs i j v there)
      ]
  u_access_value-u_assign_value (map m) c' (string_key s) v e =
      rw (← some-eq e) (u_get-u_write_self name_lt name_lt-IsComparer blank v m s)
  u_access_value-u_assign_value (form_map m) c' (form_key f) v e =
      rw (← some-eq e) (u_get-u_write_self form_lt form_lt-IsComparer blank v m f)
  u_access_value-u_assign_value (integer_map m) c' (int_key i) v e =
      rw (← some-eq e) (u_get-u_write_self ltb_ℤ ltb_ℤ-IsComparer blank v m i)
  u_access_value-u_assign_value c c' key v e = cc

  -- An item that is read can be assigned to.
  pub u_assign_value-some :
      (c : Container R) (key : Key) (old v : Item R)
      → u_access_value c key ≡ some old
      → (c' : Container R) × (u_assign_value c key v ≡ some c')
  unfolding u_access_value u_assign_value u_get u_set
  u_assign_value-some (array xs) (int_key i) old v e = elim (Option-cases (u_convert_index xs i)) [
    | inl out ↦ let e' = rw (out, u_get) at e in cc
    | inr (j, there) ↦ (array (set xs j v), rw (there, u_set) refl)
  ]
  u_assign_value-some (map m) (string_key s) old v e = (_, refl)
  u_assign_value-some (form_map m) (form_key f) old v e = (_, refl)
  u_assign_value-some (integer_map m) (int_key i) old v e = (_, refl)
  u_assign_value-some c key old v e = cc

module _ {R : Type 0} (mods : Mods) where
  -- A value that a path leads to can be assigned to: the call succeeds, changes one container, and
  -- the value is then found there under the path's last key.
  pub assign-constant :
      (s : Store R) (target : ℕ) (cpath : Option (List ℕ)) (info : AccessInfo) (old value : Item R)
      → access_constant mods s target cpath ≡ done (some (some info, s))
      → u_access_value (s.objects info.collection) info.key ≡ some old
      → (c : Container R) × (assign mods s target cpath value constant
          ≡ done (some (true, write s info.collection c)))
        × (u_access_value c info.key ≡ some value)
  unfolding assign write_item
  assign-constant s target cpath info old value e there =
      let (c, a) = u_assign_value-some (s.objects info.collection) info.key old value there in
      (
        c,
        rw (e, when_found) (rw there (rw (a, write_item) refl)),
        u_access_value-u_assign_value (s.objects info.collection) c info.key value a,
      )
