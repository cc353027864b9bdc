-- ===== src/Json/Leads.antt =====
-- `create_json_value`: it ends, and the paths of its references lead to the objects that they stand for.
use jcontainers_ng.Common.{
  ℕ, ◌+◌, ◌≤◌, ◌<◌, ◌≡◌, refl, Bool, true, false, ◌==◌, some, List, [], ◌∷◌, arith, length,
  Bool-cases, inl, inr,
}
use jcontainers_ng.Index.{done}
use jcontainers_ng.Forms.Strings.{Mods}
use jcontainers_ng.Paths.{Key, Store}
use jcontainers_ng.Json.{Jansson}
use jcontainers_ng.Json.Outcomes.{Returns, Returns-and_then, Returns-mono}
use jcontainers_ng.Json.Keys.{contains}
use jcontainers_ng.Json.Trails.{follow, AllClimb, climb-follow}
use jcontainers_ng.Json.Writing.{Serializer, first_placeholder, create_placeholder}
use jcontainers_ng.Json.Keys.{climb, find_info}
use jcontainers_ng.Json.Serials.{unseen, unseen-new, unseen-le}
use jcontainers_ng.Json.Writing.{rounds, write_json, at_start}
use jcontainers_ng.Json.Written.{IsReadable, rounds-Inv}

-- The loop of `path_to_object` ends for the object, with keys that lead from the root to it.
abbrev pub LeadsTo : {R D : Type 0} → Store R → ℕ → Serializer D → ℕ → Type 0
LeadsTo s root st obj =
    (path : List Key) × (climb (length st.key_info) st.key_info root obj [] ≡ some path)
    × (follow s (some root) path ≡ some obj)

abbrev pub AllLead : {R D : Type 0} → Store R → ℕ → Serializer D → List ℕ → Type 0
AllLead s root st [] = Unit
AllLead s root st (obj ∷ objs) = LeadsTo s root st obj × AllLead s root st objs

module _ {R D : Type 0} (lib : Jansson D) (asserts : Bool) (mods : Mods) (widen : R → D)
    (s : Store R) (root : ℕ) where
  -- Each object with a node, one by one.
  pub write_json-LeadsTo :
      IsReadable asserts mods s
      → root < s.next_address
      → Returns
          (λ r.
            (contains r.1.serialized_objects root ≡ true)
            × ((obj : ℕ) → contains r.1.serialized_objects obj ≡ true → LeadsTo s root r.1 obj))
          (write_json lib asserts mods widen s root)
  unfolding write_json create_placeholder first_placeholder contains find_info
  write_json-LeadsTo readable h =
      let st = (first_placeholder s (at_start {D = D}) root).1 in
      let self : (root == root) ≡ true = ground arith in
      let new : contains [] root ≡ false = refl in
      let room : 1 + unseen s.next_address (root ∷ []) ≤ s.next_address =
        omega (arith, unseen-new s.next_address root [] new h, unseen-le s.next_address []) in
      Returns-and_then _ _ (rounds lib asserts mods widen root s s.next_address st st.to_fill)
        (λ st'. done (some ((first_placeholder s (at_start {D = D}) root).0, st')))
        (rounds-Inv lib asserts mods widen root s s.next_address readable s.next_address st
          ((root, 0) ∷ []) (start_climbs root) (rw self refl) (λ a k. inl (start_known a k))
          ((h, inl self), tt) room)
        (λ st' g. (g.1, λ obj k. climb-follow s root st'.key_info obj g.0 (g.2 obj k)))
    where
      start_climbs : (r : ℕ) → AllClimb s r []
      start_climbs r a (inl e) = e
      start_climbs r a (inr (o, f)) = cc

      start_known : (a : ℕ) → contains (root ∷ []) a ≡ true → (a == root) ≡ true
      start_known a k = ground arith

  AllLead-contains :
      (st : Serializer D) (objs : List ℕ)
      → ((obj : ℕ) → contains objs obj ≡ true → LeadsTo s root st obj)
      → AllLead s root st objs
  unfolding contains
  AllLead-contains st [] h = tt
  AllLead-contains st (o ∷ objs) h =
      let self : (o == o) ≡ true = ground arith in
      (
        h o (rw self refl),
        AllLead-contains st objs (λ obj k.
            h obj
              (elim (Bool-cases (o == obj)) [ inl same ↦ rw same refl | inr other ↦ rw other k ])),
      )

  -- With as many rounds as there are addresses in use, serialisation of an object of a store whose
  -- containers list their items under the items' keys never runs out of fuel, and no climb along the
  -- keys does: it is a fault, or in the end the root is among the objects that got a node, and for each
  -- of these the climb gives keys that lead in the store from the root to that object.
  pub write_json-Returns :
      IsReadable asserts mods s
      → root < s.next_address
      → Returns
          (λ r.
            (contains r.1.serialized_objects root ≡ true)
            × AllLead s root r.1 r.1.serialized_objects)
          (write_json lib asserts mods widen s root)
  write_json-Returns readable h =
      Returns-mono _ _ (write_json lib asserts mods widen s root) (write_json-LeadsTo readable h)
        (λ r k. (k.0, AllLead-contains r.1 r.1.serialized_objects k.1))
