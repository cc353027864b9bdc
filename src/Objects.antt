-- ===== src/Objects.antt =====
-- src/JContainers/src/object/: reference-counted objects (object_base.h, object_base.hpp), their
-- registry (object_registry.h), the queue that owns objects for a while (autorelease_queue.h) and
-- the garbage collector (garbage_collector.h). An object is an address into a heap, a call through
-- an address that was freed is a fault, and the calls run one at a time.
pub mod Time
pub mod Collector
pub mod Invariant
pub mod Release
pub mod Delete
pub mod Tick
pub mod Frame
pub mod Lapse
pub mod Sweep
pub mod Mark
pub mod Reach
pub mod Tests
use jcontainers_ng.Common.{
  ℕ, zero, suc, ◌+◌, ◌-◌, ◌&&◌, ◌||◌, not, Bool, true, false, Option, none, some, List, [], ◌∷◌,
  ◌++◌, ltb, leb, ◌==◌, if◌then◌else◌,
}
use jcontainers_ng.Index.{Exec, done, fault, ◌>>=◌}
use jcontainers_ng.IdGenerator.{IdGenerator, new_id, reuse_id, u_clear}
use Time.{time_add, time_subtract, life_in_ticks, is_due}

-- `object_base`; `items` lists the objects that its container refers to, once for each reference,
-- and an `id` of 0 is `Handle::Null`.
pub record Object : Type 0 where
  pub id : ℕ
  pub ref_count : ℕ
  pub tes_ref_count : ℕ
  pub stack_ref_count : ℕ
  pub aqueue_ref_count : ℕ
  pub aqueue_push_time : ℕ
  pub initialized : Bool
  pub items : List ℕ

-- `object_context` with its registry and its queue.
pub record Context : Type 0 where
  pub heap : ℕ → Option Object
  pub all_objects : List ℕ
  pub handles : ℕ → Option ℕ
  pub id_gen : IdGenerator
  pub queue : List ℕ
  pub tick_counter : ℕ

abbrev pub total_count : Object → ℕ
total_count o = o.ref_count + o.tes_ref_count + o.stack_ref_count + o.aqueue_ref_count

abbrev pub no_owners : Object → Bool
no_owners o =
    (o.ref_count == 0)
    && (o.tes_ref_count == 0)
    && (o.aqueue_ref_count == 0)
    && (o.stack_ref_count == 0)

abbrev pub is_public : Object → Bool
is_public o = not (o.id == 0)

abbrev pub is_user_retains : Object → Bool
is_user_retains o = ltb 0 o.tes_ref_count

abbrev pub is_in_aqueue : Object → Bool
is_in_aqueue o = ltb 0 o.aqueue_ref_count

abbrev pub update {ℓ} : {A : Type ℓ} → (ℕ → Option A) → ℕ → Option A → ℕ → Option A
update f a v b = if a == b then v else f b

abbrev pub put : Context → ℕ → Object → Context
put c a o = record c { heap = update c.heap a (some o) }

unfoldable pub load : Context → ℕ → Exec Object
load c a = elim (c.heap a) [ none ↦ fault | some o ↦ done o ]

-- `autorelease_queue::prolong_lifetime`.
unfoldable pub queue_prolong : Context → ℕ → Object → Bool → Context
queue_prolong c a o public =
    let timed = record o {
      aqueue_push_time =
          if public then c.tick_counter else time_subtract c.tick_counter life_in_ticks;
    } in
    if is_in_aqueue o
    then put c a timed
    else record (put c a (record timed { aqueue_ref_count = o.aqueue_ref_count + 1 })) {
      queue = c.queue ++ (a ∷ []);
    }

-- `autorelease_queue::not_prolong_lifetime`.
unfoldable pub queue_not_prolong : Context → ℕ → Object → Context
queue_not_prolong c a o =
    if is_in_aqueue o
    then put c a (record o { aqueue_push_time = time_subtract c.tick_counter life_in_ticks })
    else c

-- `prolong_lifetime` of an object.
abbrev pub prolong : Context → ℕ → Object → Context
prolong c a o = queue_prolong c a o (is_public o)

pub retain : Context → ℕ → Exec Context
retain c a = load c a >>= λ o. done (put c a (record o { ref_count = o.ref_count + 1 }))

-- What `release` does to an object that it can read. The lifetime is prolonged only when the
-- object has its context.
unfoldable pub release_loaded : Context → ℕ → Object → Context
release_loaded c a o =
    let o' = record o { ref_count = o.ref_count - 1 } in
    if ltb 0 o.ref_count
    then (if no_owners o' && o.initialized then prolong c a o' else put c a o')
    else c

unfoldable pub release : Context → ℕ → Exec Context
release c a = load c a >>= λ o. done (release_loaded c a o)

unfoldable pub tes_retain : Context → ℕ → Exec Context
tes_retain c a = load c a >>= λ o.
    let o' = record o { tes_ref_count = o.tes_ref_count + 1 } in
    done (queue_not_prolong (put c a o') a o')

unfoldable pub tes_release_loaded : Context → ℕ → Object → Context
tes_release_loaded c a o =
    let o' = record o { tes_ref_count = o.tes_ref_count - 1 } in
    if ltb 0 o.tes_ref_count
    then (if no_owners o' then queue_prolong c a o' true else put c a o')
    else c

unfoldable pub tes_release : Context → ℕ → Exec Context
tes_release c a = load c a >>= λ o. done (tes_release_loaded c a o)

pub stack_retain : Context → ℕ → Exec Context
stack_retain c a =
    load c a >>= λ o. done (put c a (record o { stack_ref_count = o.stack_ref_count + 1 }))

unfoldable pub stack_release_loaded : Context → ℕ → Object → Context
stack_release_loaded c a o =
    let o' = record o { stack_ref_count = o.stack_ref_count - 1 } in
    if ltb 0 o.stack_ref_count then (if no_owners o' then prolong c a o' else put c a o') else c

unfoldable pub stack_release : Context → ℕ → Exec Context
stack_release c a = load c a >>= λ o. done (stack_release_loaded c a o)

-- The references of a container that is cleared or destroyed go one after another.
unfoldable pub release_each : Context → List ℕ → Exec Context
release_each c [] = done c
release_each c (a ∷ as') = release c a >>= λ c'. release_each c' as'

unfoldable pub remove_address : ℕ → List ℕ → List ℕ
remove_address a [] = []
remove_address a (b ∷ bs) = let rest = remove_address a bs in if a == b then bs else b ∷ rest

-- `object_registry::u_removeObject`.
unfoldable pub remove_object : Context → ℕ → Object → Context
remove_object c a o =
    let c' = record c { all_objects = remove_address a c.all_objects } in
    if is_public o
    then record c' { handles = update c.handles o.id none; id_gen = reuse_id c.id_gen o.id }
    else c'

-- `_delete_self`: the registry forgets the object and its items are released. The heap forgets it
-- first, so that an item that refers back to it would be a fault.
unfoldable pub delete_self : Context → ℕ → Object → Exec Context
delete_self c a o =
    let c' = remove_object c a o in
    release_each (record c' { heap = update c'.heap a none }) o.items

unfoldable pub aqueue_release_loaded : Context → ℕ → Object → Exec Context
aqueue_release_loaded c a o =
    if leb (total_count o) 1
    then delete_self c a (record o { aqueue_ref_count = 0 })
    else done (put c a (record o { aqueue_ref_count = o.aqueue_ref_count - 1 }))

unfoldable pub aqueue_release : Context → ℕ → Exec Context
aqueue_release c a = load c a >>= λ o. aqueue_release_loaded c a o

-- `remove_if` over the queue: the entries that stay, and those that go.
unfoldable pub split_due : Context → List ℕ → Exec (List ℕ × List ℕ)
split_due c [] = done ([], [])
split_due c (a ∷ as') = load c a >>= λ o. split_due c as' >>= λ rest. done (
    if is_due c.tick_counter o.aqueue_push_time then (rest.0, a ∷ rest.1) else (a ∷ rest.0, rest.1))

unfoldable pub release_due : Context → List ℕ → Exec Context
release_due c [] = done c
release_due c (a ∷ as') = aqueue_release c a >>= λ c'. release_due c' as'

unfoldable pub tick : Context → Exec Context
tick c = split_due c c.queue >>= λ parts.
    release_due (record c { queue = parts.0; tick_counter = time_add c.tick_counter 1 }) parts.1

-- `collection_base::make`: a new object at an address that is not in use.
pub make : Context → ℕ → Context
make c a = record c {
  heap = update c.heap a (
      some (record {
        id = 0;
        ref_count = 0;
        tes_ref_count = 0;
        stack_ref_count = 0;
        aqueue_ref_count = 0;
        aqueue_push_time = 0;
        initialized = true;
        items = [];
      }));
  all_objects = a ∷ c.all_objects;
}

-- `registerNewObjectId`, with the store of the identifier in the object.
unfoldable pub register_id : Context → ℕ → Object → Exec (ℕ × Context)
register_id c a o = elim (new_id c.id_gen) [
  | none ↦ fault
  | some (n, g) ↦ elim (c.handles n) [
    | some _ ↦ fault
    | none ↦ done (
      n,
      record (put c a (record o { id = n })) { id_gen = g; handles = update c.handles n (some a) },
    )
  ]
]

-- `uid`: an object that no other refers to is queued when it is first exposed.
unfoldable pub uid : Context → ℕ → Exec (ℕ × Context)
uid c a = load c a >>= λ o.
    if is_public o
    then done (o.id, c)
    else (register_id c a o >>= λ r.
        done (r.0, if o.ref_count == 0 then prolong r.1 a (record o { id = r.0 }) else r.1))

-- `public_id` never prolongs the lifetime.
pub public_id : Context → ℕ → Exec (ℕ × Context)
public_id c a = load c a >>= λ o. if is_public o then done (o.id, c) else register_id c a o

-- `zero_lifetime`.
pub zero_lifetime : Context → ℕ → Exec Context
zero_lifetime c a = load c a >>= λ o. done (queue_not_prolong c a o)

unfoldable pub u_get_object : Context → ℕ → Option ℕ
u_get_object c hdl = if hdl == 0 then none else c.handles hdl

unfoldable pub get_object : Context → ℕ → Option ℕ
get_object c hdl = if hdl == 0 then none else u_get_object c hdl

-- An item of the container `a` is set to the object `b`.
unfoldable pub add_reference : Context → ℕ → ℕ → Exec Context
add_reference c a b =
    retain c b >>= λ c'. load c' a >>= λ o. done (put c' a (record o { items = b ∷ o.items }))

-- `u_clear` of a container.
unfoldable pub clear_items : Context → ℕ → Exec Context
clear_items c a = load c a >>= λ o. release_each (put c a (record o { items = [] })) o.items
