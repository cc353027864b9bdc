-- ===== src/Forms/Observer.antt =====
-- src/JContainers/src/forms/form_observer.h and form_observer.hpp: the entries that form references
-- share, and the observer that marks the entry of a deleted form. An entry is an address; it is
-- destroyed with the last of its shared pointers, and a weak pointer to it then locks to nothing.
-- The map of weak pointers is a function.
use jcontainers_ng.Common.{
  ℕ, ◌+◌, ◌-◌, ◌≡◌, Bool, true, false, not, ◌&&◌, ◌==◌, leb, if◌then◌else◌, Option, none, some,
}
use jcontainers_ng.Index.{Exec, done, fault}
use jcontainers_ng.Forms.{is_form_handle, form_handle_to_id}

-- `form_entry`, with the number of its shared pointers.
pub record Entry : Type 0 where
  pub id : ℕ
  pub deleted : Bool
  pub is_handle_retained : Bool
  pub use_count : ℕ

-- `form_observer`, with the entries, the first address that was never used, and how often the game
-- holds each handle for us.
pub record Observer : Type 0 where
  pub entries : ℕ → Option Entry
  pub next_entry : ℕ
  pub watched_forms : ℕ → Option ℕ
  pub handles : ℕ → ℕ

abbrev pub replace {ℓ} : {A : Type ℓ} → (ℕ → A) → ℕ → A → ℕ → A
replace f a v b = if a == b then v else f b

-- `try_retain_handle` of the game.
module _ (try_retain_handle : ℕ → Bool) where
  -- `form_entry::make`
  unfoldable pub make : Observer → ℕ → ℕ × Observer
  make ob handle =
      let a = ob.next_entry in
      let held = try_retain_handle handle in
      (
        a,
        record ob {
          entries = replace ob.entries a (
              some (record {
                id = handle;
                deleted = false;
                is_handle_retained = held;
                use_count = 1;
              }));
          next_entry = a + 1;
          handles = if held then replace ob.handles handle (ob.handles handle + 1) else ob.handles;
        },
      )

  -- A new entry, in the map instead of what was there.
  unfoldable pub watch_new : Observer → ℕ → Option ℕ × Observer
  watch_new ob id =
      let r = make ob id in
      (some r.0, record r.1 { watched_forms = replace r.1.watched_forms id (some r.0) })

  unfoldable pub watch_form : Observer → ℕ → Option ℕ × Observer
  watch_form ob id = if id == 0 then (none, ob) else (elim (ob.watched_forms id) [
    | none ↦ watch_new ob id
    | some a ↦ elim (ob.entries a) [
      | none ↦ watch_new ob id
      | some watched ↦ if watched.deleted then watch_new ob id else (
        some a,
        record ob {
          entries =
              replace ob.entries a (some (record watched { use_count = watched.use_count + 1 }));
        },
      )
    ]
  ])

-- `form_entry::make_expired`
unfoldable pub make_expired : Observer → ℕ → ℕ × Observer
make_expired ob handle =
    let a = ob.next_entry in
    (
      a,
      record ob {
        entries = replace ob.entries a (
            some
              (record { id = handle; deleted = true; is_handle_retained = false; use_count = 1 }));
        next_entry = a + 1;
      },
    )

unfoldable pub on_form_deleted : Observer → ℕ → Observer
on_form_deleted ob handle =
    if is_form_handle handle
    then (elim (ob.watched_forms (form_handle_to_id handle)) [
      | none ↦ ob
      | some a ↦ elim (ob.entries a) [
        | none ↦ ob
        | some watched ↦ record ob {
          entries = replace ob.entries a (some (record watched { deleted = true }));
        }
      ]
    ])
    else ob

-- A copy of a reference.
unfoldable pub copy_ref : Observer → ℕ → Exec Observer
copy_ref ob a = elim (ob.entries a) [
  | none ↦ fault
  | some e ↦ done (record ob {
    entries = replace ob.entries a (some (record e { use_count = e.use_count + 1 }));
  })
]

-- `~form_entry`
unfoldable pub destroy : Observer → ℕ → Entry → Observer
destroy ob a e =
    let freed = record ob { entries = replace ob.entries a none } in
    if not e.deleted && e.is_handle_retained
    then record freed { handles = replace ob.handles e.id (ob.handles e.id - 1) }
    else freed

-- A reference is dropped; the last one destroys the entry.
unfoldable pub drop_ref : Observer → ℕ → Exec Observer
drop_ref ob a = elim (ob.entries a) [
  | none ↦ fault
  | some e ↦ done (
      if leb e.use_count 1 then destroy ob a e else record ob {
        entries = replace ob.entries a (some (record e { use_count = e.use_count - 1 }));
      })
]

unfoldable pub u_remove_expired_forms : Observer → Observer
u_remove_expired_forms ob = record ob {
  watched_forms = λ id. elim (ob.watched_forms id) [
    | none ↦ none
    | some a ↦ elim (ob.entries a) [ none ↦ none | some e ↦ some a ]
  ];
}

-- `form_ref::get`: 0 for a null reference and for a deleted form.
unfoldable pub get : Observer → Option ℕ → ℕ
get ob none = 0
get ob (some a) = elim (ob.entries a) [ none ↦ 0 | some e ↦ if e.deleted then 0 else e.id ]

unfoldable pub u_clear_state : Observer → Observer
u_clear_state ob = record ob { watched_forms = λ id. none }

-- An observer that has seen no form.
abbrev pub no_forms : Observer
no_forms = record {
  entries = λ a. none;
  next_entry = 0;
  watched_forms = λ id. none;
  handles = λ id. 0;
}

-- The observers that calls lead to. The state is cleared when no entry is left.
pub data Run (try_retain_handle : ℕ → Bool) : Observer → Type 0 where
  starting : Run try_retain_handle no_forms
  watching :
      {ob : Observer}
      → Run try_retain_handle ob
      → (id : ℕ) → Run try_retain_handle (watch_form try_retain_handle ob id).1
  expiring :
      {ob : Observer}
      → Run try_retain_handle ob
      → (handle : ℕ) → Run try_retain_handle (make_expired ob handle).1
  deleting :
      {ob : Observer}
      → Run try_retain_handle ob
      → (handle : ℕ) → Run try_retain_handle (on_form_deleted ob handle)
  copying :
      {ob ob' : Observer}
      → Run try_retain_handle ob
      → (a : ℕ) → copy_ref ob a ≡ done ob'
      → Run try_retain_handle ob'
  dropping :
      {ob ob' : Observer}
      → Run try_retain_handle ob
      → (a : ℕ) → drop_ref ob a ≡ done ob'
      → Run try_retain_handle ob'
  sweeping :
      {ob : Observer} → Run try_retain_handle ob → Run try_retain_handle (u_remove_expired_forms ob)
  clearing :
      {ob : Observer}
      → Run try_retain_handle ob
      → ((a : ℕ) → ob.entries a ≡ none)
      → Run try_retain_handle (u_clear_state ob)
