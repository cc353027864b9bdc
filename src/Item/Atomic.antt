-- ===== src/Item/Atomic.antt =====
-- src/JContainers/src/api_3/tes_atomic.h, the script interface JAtomic, on the item that path access
-- reaches: none when `ca::visit_value` does not succeed. `given` says that neither the object nor
-- the path is null, `get` is `item::get` at the type of the values, and `wrap` makes an item.
use jcontainers_ng.Common.{Bool, true, false, ◌≡◌, refl, Option, none, some, if◌then◌else◌}
use jcontainers_ng.Item.{Item, is_null}

module _ {R T : Type 0} (get : Item R → Option T) (wrap : T → Item R) (default_value : T) where
  -- The value that is returned, and the item afterwards.
  unfoldable pub perform_atomic_function :
      (T → T → T) → Bool → Option (Item R) → T → T → T → T × Option (Item R)
  perform_atomic_function func false visited input_value initial_value on_error =
      (on_error, visited)
  perform_atomic_function func true none input_value initial_value on_error = (on_error, none)
  perform_atomic_function func true (some item_value) input_value initial_value on_error =
      if is_null item_value
      then (default_value, some (wrap (func initial_value input_value)))
      else (elim (get item_value) [
        | some as_t ↦ (as_t, some (wrap (func as_t input_value)))
        | none ↦ (on_error, some item_value)
      ])

  abbrev pub ignore_first : T → T → T
  ignore_first old_value new_value = new_value

  abbrev pub exchange : Bool → Option (Item R) → T → T → T × Option (Item R)
  exchange given visited input_value on_error =
      perform_atomic_function ignore_first given visited input_value input_value on_error

  unfoldable pub compare_exchange :
      (T → T → Bool) → Bool → Option (Item R) → T → T → T → T × Option (Item R)
  compare_exchange eq false visited new_value comparer on_error = (on_error, visited)
  compare_exchange eq true none new_value comparer on_error = (on_error, none)
  compare_exchange eq true (some item_value) new_value comparer on_error = elim (get item_value) [
    | none ↦ (default_value, some item_value)
    | some value ↦
        if eq value comparer then (value, some (wrap new_value)) else (value, some item_value)
  ]

  -- With items that read back as the value that they were made of: of two compare-and-exchange
  -- calls with one comparer, on an item that holds it, the first stores its value, and the second
  -- answers that value and stores nothing, when the comparer does not equal it.
  pub compare_exchange-once :
      (eq : T → T → Bool) (held first second on_error : T)
      → ((t : T) → get (wrap t) ≡ some t)
      → eq held held ≡ true
      → eq first held ≡ false
      → (visited : Option (Item R)) × (compare_exchange eq true
            (some (wrap held))
            first
            held
            on_error
          ≡ (held, visited))
        × (compare_exchange eq true visited second held on_error ≡ (first, some (wrap first)))
  unfolding compare_exchange
  compare_exchange-once eq held first second on_error back same other = (
    some (wrap first),
    rw (back held, compare_exchange) (rw same refl),
    rw (back first, compare_exchange) (rw other refl),
  )

  -- With items that read back as the value that they were made of, and are not null: two calls in
  -- turn apply the function twice, and answer the value before each.
  pub perform_atomic_function-twice :
      (func : T → T → T) (held a b initial_value on_error : T)
      → ((t : T) → get (wrap t) ≡ some t)
      → ((t : T) → is_null (wrap t) ≡ false)
      → (visited : Option (Item R)) × (perform_atomic_function func true
            (some (wrap held))
            a
            initial_value
            on_error
          ≡ (held, visited))
        × (perform_atomic_function func true visited b initial_value on_error
            ≡ (func held a, some (wrap (func (func held a) b))))
  unfolding perform_atomic_function
  perform_atomic_function-twice func held a b initial_value on_error back full = (
    some (wrap (func held a)),
    rw (full held) (rw (back held) refl),
    rw (full (func held a)) (rw (back (func held a)) refl),
  )
