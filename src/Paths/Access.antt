-- ===== src/Paths/Access.antt =====
-- `last_kv_pair_retriever`, its two accessors, and the functions of collections/access.h on top.
use jcontainers_ng.Common.{
  ℕ, zero, suc, ◌+◌, Bool, true, false, Option, none, some, List, [], ◌∷◌, length,
}
use jcontainers_ng.Index.{Exec, done, fault, ◌>>=◌}
use jcontainers_ng.Item.{Item, blank, object, object_of}
use jcontainers_ng.Forms.Strings.{Mods}
use jcontainers_ng.Paths.{
  Key, int_key, string_key, form_key, Container, map, form_map, integer_map, Store, u_access_value,
  u_assign_value, write,
}
use jcontainers_ng.Paths.Parse.{KeyAndRest, parse_path, make_cstring_safe, after_cstring}

pub record AccessInfo : Type 0 where
  pub collection : ℕ
  pub key : Key

pub data AccessWay : Type 0 where
  constant creative : AccessWay

abbrev pub is_empty : Option (List ℕ) → Bool
is_empty none = false
is_empty (some []) = true
is_empty (some (c ∷ s)) = false

-- `value.get_value_or(nullptr)`
abbrev pub get_value_or : Option (Option ℕ) → Option ℕ
get_value_or none = none
get_value_or (some o) = o

module _ {R : Type 0} (mods : Mods) (tail : List ℕ) where
  -- `constant_accessor::access_value`
  unfoldable pub constant_access :
      Store R → ℕ → Option KeyAndRest → Exec (Option (Option ℕ) × Store R)
  constant_access s collection none = done (none, s)
  constant_access s collection (some k) = elim (u_access_value (s.objects collection) k.key) [
    | none ↦ done (none, s)
    | some itm ↦ done (some (object_of itm), s)
  ]

  -- `creator`: the container that the next key needs.
  unfoldable pub create : Key → Container R
  create (int_key i) = integer_map []
  create (string_key k) = map []
  create (form_key f) = form_map []

  -- The item that was made for a missing key gets a new container when the path goes on.
  unfoldable pub fill : Store R → ℕ → Key → Option KeyAndRest → Exec (Option (Option ℕ) × Store R)
  fill s collection key none = done (some none, s)
  fill s collection key (some next_key) =
      let a = s.next_address in
      elim (u_assign_value (s.objects collection) key (object (some a))) [
        | none ↦ fault
        | some c ↦ done (
          some (some a),
          write (record (write s a (create next_key.key)) { next_address = a + 1 }) collection c,
        )
      ]

  -- `creative_accessor::access_value`
  unfoldable pub creative_access :
      Store R → ℕ → Option KeyAndRest → Exec (Option (Option ℕ) × Store R)
  creative_access s collection none = done (none, s)
  creative_access s collection (some k) = elim (u_access_value (s.objects collection) k.key) [
    | some itm ↦ done (some (object_of itm), s)
    | none ↦ parse_path mods tail k.rest_of_path >>= λ next_key.
        elim (u_assign_value (s.objects collection) k.key blank) [
          | none ↦ done (none, s)
          | some c ↦ fill (write s collection c) collection k.key next_key
        ]
  ]

  module _ (access : Store R → ℕ → Option KeyAndRest → Exec (Option (Option ℕ) × Store R)) where
    -- `recurs`, on fuel; the outer `none` is fuel that ran out.
    unfoldable pub recurs :
        ℕ
        → Store R
        → Option (Option ℕ)
        → Option KeyAndRest
        → ℕ
        → Exec (Option (Option AccessInfo × Store R))
    recurs fuel s value none source = done (some (none, s))
    recurs zero s value (some k) source = elim (is_empty k.rest_of_path) [
      | true ↦ done (some (some (record { collection = source; key = k.key }), s))
      | false ↦ elim (get_value_or value) [
        | none ↦ done (some (none, s))
        | some as_object ↦ done none
      ]
    ]
    recurs (suc fuel) s value (some k) source = elim (is_empty k.rest_of_path) [
      | true ↦ done (some (some (record { collection = source; key = k.key }), s))
      | false ↦ elim (get_value_or value) [
        | none ↦ done (some (none, s))
        | some as_object ↦ parse_path mods tail k.rest_of_path >>= λ next_key.
            access s as_object next_key >>= λ r. recurs fuel r.1 r.0 next_key as_object
      ]
    ]

    unfoldable pub retrieve : ℕ → Store R → ℕ → List ℕ → Exec (Option (Option AccessInfo × Store R))
    retrieve fuel s collection path = parse_path mods tail (some path) >>= λ key_opt.
        access s collection key_opt >>= λ r. recurs fuel r.1 r.0 key_opt collection

-- What a call that found its way comes to.
abbrev pub when_found {ℓ κ} :
    {A : Type ℓ} {B : Type κ}
    → Exec (Option (Option AccessInfo × A))
    → (A → Exec (Option B))
    → (AccessInfo → A → Exec (Option B))
    → Exec (Option B)
when_found fault missing found = fault
when_found (done none) missing found = done none
when_found (done (some (none, s))) missing found = missing s
when_found (done (some (some info, s))) missing found = found info s

module _ {R : Type 0} (mods : Mods) where
  unfoldable pub access_constant :
      Store R → ℕ → Option (List ℕ) → Exec (Option (Option AccessInfo × Store R))
  access_constant s tree path =
      retrieve mods (after_cstring path) (constant_access mods (after_cstring path))
        (length (make_cstring_safe path)) s tree (make_cstring_safe path)

  unfoldable pub access_creative :
      Store R → ℕ → Option (List ℕ) → Exec (Option (Option AccessInfo × Store R))
  access_creative s tree path =
      retrieve mods (after_cstring path) (creative_access mods (after_cstring path))
        (length (make_cstring_safe path)) s tree (make_cstring_safe path)

  -- As for the search, an outer `none` is fuel that ran out.
  unfoldable pub get : Store R → ℕ → Option (List ℕ) → Exec (Option (Option (Item R)))
  get s target cpath =
      when_found (access_constant s target cpath) (λ s'. done (some none))
        (λ info s'. done (some (u_access_value (s'.objects info.collection) info.key)))

  abbrev pub access_by :
      AccessWay → Store R → ℕ → Option (List ℕ) → Exec (Option (Option AccessInfo × Store R))
  access_by constant = access_constant
  access_by creative = access_creative

  -- A write through a pointer into the container.
  unfoldable pub write_item : Store R → AccessInfo → Item R → Bool × Store R
  write_item s info value = elim (u_assign_value (s.objects info.collection) info.key value) [
    | none ↦ (false, s)
    | some c ↦ (true, write s info.collection c)
  ]

  unfoldable pub visit_value :
      Store R → ℕ → Option (List ℕ) → AccessWay → (Item R → Item R) → Exec (Option (Bool × Store R))
  visit_value s target cpath way f =
      when_found (access_by way s target cpath) (λ s'. done (some (false, s')))
        (λ info s'. elim (u_access_value (s'.objects info.collection) info.key) [
          | none ↦ done (some (false, s'))
          | some itm ↦ done (some (write_item s' info (f itm)))
        ])

  unfoldable pub assign :
      Store R → ℕ → Option (List ℕ) → Item R → AccessWay → Exec (Option (Bool × Store R))
  assign s target cpath value constant =
      when_found (access_constant s target cpath) (λ s'. done (some (false, s')))
        (λ info s'. elim (u_access_value (s'.objects info.collection) info.key) [
          | none ↦ done (some (false, s'))
          | some itm ↦ done (some (write_item s' info value))
        ])
  assign s target cpath value creative =
      when_found (access_creative s target cpath) (λ s'. done (some (false, s')))
        (λ info s'. done (some (write_item s' info value)))
