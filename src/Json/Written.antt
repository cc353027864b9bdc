-- ===== src/Json/Written.antt =====
-- `_write_json` ends, every object that it gives a node climbs to the root, and the keys on the way lead
-- back to the object.
use jcontainers_ng.Common.{
  ℕ, zero, suc, ◌+◌, ◌≤◌, ◌<◌, ◌≡◌, refl, Bool, true, Option, none, some, List, [], ◌∷◌, arith,
  length, Bool-cases, Option-cases, inl, inr, pos,
}
use jcontainers_ng.Index.{Exec, done, ◌>>=◌}
use jcontainers_ng.Item.{Item, blank, integer, real, form, object, string, object_of, form_get}
use jcontainers_ng.Forms.Strings.{Mods, form_to_string}
use jcontainers_ng.Paths.{Key, int_key, Container, array, map, form_map, integer_map, Store}
use jcontainers_ng.Paths.Walk.{Exec-cases}
use jcontainers_ng.Json.{Jansson}
use jcontainers_ng.Json.Outcomes.{and_then, Returns, Returns-and_then, Returns-mono}
use jcontainers_ng.Json.Keys.{contains, keys_text, path_to_object, members_of}
use jcontainers_ng.Json.Trails.{Known, AllClimb, climb-follow}
use jcontainers_ng.Json.Writing.{
  Serializer, first_placeholder, fill_key_info, write_node, put_metainfo, create_placeholder,
  create_value,
}
use jcontainers_ng.Json.Serials.{
  unseen, Held, AllPlaced, Ready, Inv, More, AllPlaced-More, set_doc-Inv, fill_key_info-Inv,
  first_placeholder-Inv,
}
use jcontainers_ng.Json.Writing.{
  fill_array, fill_member, fill_members, fill_container, fill_each, rounds, append_to, set_in,
}

module _ {R : Type 0} (asserts : Bool) (mods : Mods) (s : Store R) (limit : ℕ) where
  abbrev pub AllItems : ℕ → ℕ → List (Item R) → Type 0
  AllItems cnt index [] = Unit
  AllItems cnt index (itm ∷ items) =
      Held s limit cnt (int_key (pos index)) (object_of itm) × AllItems cnt (index + 1) items

  abbrev pub AllMembers : ℕ → List (Option (Key × List ℕ) × Item R) → Type 0
  AllMembers cnt [] = Unit
  AllMembers cnt ((none, itm) ∷ ps) = AllMembers cnt ps
  AllMembers cnt ((some (key, text), itm) ∷ ps) =
      Held s limit cnt key (object_of itm) × AllMembers cnt ps

  -- The items of a container stand under their keys, and hold objects in use.
  abbrev pub AllHeld : ℕ → Container R → Type 0
  AllHeld cnt (array xs) = AllItems cnt 0 xs
  AllHeld cnt c = AllMembers cnt (members_of asserts mods c)

-- Every container in use is so.
abbrev pub IsReadable : {R : Type 0} → Bool → Mods → Store R → Type 0
IsReadable asserts mods s =
    (a : ℕ) → a < s.next_address → AllHeld asserts mods s s.next_address a (s.objects a)

module _ {R D : Type 0} (lib : Jansson D) (asserts : Bool) (mods : Mods) (widen : R → D) (root : ℕ)
    (s : Store R) (limit : ℕ) where
  create_placeholder-Inv :
      (k : ℕ) (st : Serializer D) (obj : ℕ)
      → Inv s root limit k st
      → (obj < limit) × Known s root st.key_info obj
      → Returns
          (λ r. Inv s root limit k r.1 × (r.1.key_info ≡ st.key_info))
          (create_placeholder lib asserts mods widen root s st obj)
  unfolding create_placeholder path_to_object first_placeholder
  create_placeholder-Inv k st obj i b = elim (Bool-cases (contains st.serialized_objects obj)) [
    | inr new ↦
        rw (new, create_placeholder) (first_placeholder-Inv s root limit k st obj i new b, refl)
    | inl old ↦
        let (path, found, leads) = climb-follow s root st.key_info obj i.climbs b.1 in
        rw (old, create_placeholder)
          (rw (found, path_to_object)
            (elim (Exec-cases (keys_text asserts mods path)) [
              | inl bad ↦ rw (bad, ◌>>=◌) tt
              | inr (t, good) ↦ rw (good, ◌>>=◌) (i, refl)
            ]))
  ]

  create_value-Inv :
      (k : ℕ) (st : Serializer D) (itm : Item R)
      → Inv s root limit k st
      → Ready s root limit st.key_info (object_of itm)
      → Returns
          (λ r. Inv s root limit k r.1 × (r.1.key_info ≡ st.key_info))
          (create_value lib asserts mods widen root s st itm)
  unfolding create_value
  create_value-Inv k st blank i b = (i, refl)
  create_value-Inv k st (integer n) i b = (i, refl)
  create_value-Inv k st (real x) i b = (i, refl)
  create_value-Inv k st (string t) i b = (i, refl)
  create_value-Inv k st (object none) i b = (i, refl)
  create_value-Inv k st (object (some obj)) i b = create_placeholder-Inv k st obj i b
  create_value-Inv k st (form f) i b = elim (Option-cases (form_to_string mods (form_get f))) [
    | inl no_text ↦ rw (no_text, create_value) (i, refl)
    | inr (t, text) ↦ rw (text, create_value) (i, refl)
  ]

  -- An item and its key: what follows is known of what was known before.
  item-Inv :
      (k : ℕ) (st : Serializer D) (itm : Item R) (cnt : ℕ) (key : Key)
      → Inv s root limit k st
      → Known s root st.key_info cnt
      → Held s limit cnt key (object_of itm)
      → Returns
          (λ r. Inv s root limit k r.1 × More s root limit st r.1)
          (create_value lib asserts mods widen root s (fill_key_info st itm cnt key) itm)
  item-Inv k st itm cnt key i o h =
      let (i', more, ready) = fill_key_info-Inv s root limit k st itm cnt key i o h in
      let st' = fill_key_info st itm cnt key in
      Returns-mono _ _ (create_value lib asserts mods widen root s st' itm)
        (create_value-Inv k st' itm i' ready) (λ r j. (j.0, λ a x. rw j.1 (more a x)))

  abbrev Goes : ℕ → Serializer D → Serializer D → Type 0
  Goes k st st' = Inv s root limit k st' × More s root limit st st'

  Goes-and_then :
      (k : ℕ) (st : Serializer D) (m : Exec (Option (Serializer D)))
      (f : Serializer D → Exec (Option (Serializer D)))
      → Returns (Goes k st) m
      → ((st' : Serializer D) → Goes k st st' → Returns (Goes k st') (f st'))
      → Returns (Goes k st) (and_then m f)
  Goes-and_then k st m f h next =
      Returns-and_then _ _ m f h (λ st' g.
        Returns-mono _ _ (f st') (next st' g) (λ st'' g'. (g'.0, λ a x. g'.1 a (g.1 a x))))

  fill_array-Inv :
      (k : ℕ) (st : Serializer D) (cnt n : ℕ) (items : List (Item R)) (index : ℕ)
      → Inv s root limit k st
      → Known s root st.key_info cnt
      → AllItems asserts mods s limit cnt index items
      → Returns
          (λ st'. Inv s root limit k st' × More s root limit st st')
          (fill_array lib asserts mods widen root s st cnt n items index)
  unfolding fill_array
  fill_array-Inv k st cnt n [] index i o h = (i, λ a x. x)
  fill_array-Inv k st cnt n (itm ∷ items) index i o h =
      let key = int_key (pos index) in
      Returns-and_then _ _
        (create_value lib asserts mods widen root s (fill_key_info st itm cnt key) itm)
        (λ r.
          fill_array lib asserts mods widen root s
            (write_node r.1 n (append_to lib (r.1.doc.nodes n) r.0)) cnt n items (index + 1))
        (item-Inv k st itm cnt key i o h.0)
        (λ r j.
          let st' = write_node r.1 n (append_to lib (r.1.doc.nodes n) r.0) in
          Returns-mono _ _ (fill_array lib asserts mods widen root s st' cnt n items (index + 1))
            (fill_array-Inv k (write_node r.1 n (append_to lib (r.1.doc.nodes n) r.0)) cnt n items
              (index + 1) (set_doc-Inv s root limit k r.1 _ j.0) (j.1 cnt o) h.1)
            (λ st'' g. (g.0, λ a x. g.1 a (j.1 a x))))

  fill_member-Inv :
      (k : ℕ) (st : Serializer D) (cnt n : ℕ) (p : Option (Key × List ℕ) × Item R)
      → Inv s root limit k st
      → Known s root st.key_info cnt
      → AllMembers asserts mods s limit cnt (p ∷ [])
      → Returns
          (λ st'. Inv s root limit k st' × More s root limit st st')
          (fill_member lib asserts mods widen root s st cnt n p)
  unfolding fill_member
  fill_member-Inv k st cnt n (none, itm) i o h = (i, λ a x. x)
  fill_member-Inv k st cnt n (some (key, text), itm) i o h =
      Returns-and_then _ _
        (create_value lib asserts mods widen root s (fill_key_info st itm cnt key) itm)
        (λ r. done (some (write_node r.1 n (set_in lib (r.1.doc.nodes n) text r.0))))
        (item-Inv k st itm cnt key i o h.0) (λ r j. (set_doc-Inv s root limit k r.1 _ j.0, j.1))

  AllMembers-head :
      (cnt : ℕ) (p : Option (Key × List ℕ) × Item R) (ps : List (Option (Key × List ℕ) × Item R))
      → AllMembers asserts mods s limit cnt (p ∷ ps)
      → AllMembers asserts mods s limit cnt (p ∷ []) × AllMembers asserts mods s limit cnt ps
  AllMembers-head cnt (none, itm) ps h = (tt, h)
  AllMembers-head cnt (some (key, text), itm) ps h = ((h.0, tt), h.1)

  fill_members-Inv :
      (k : ℕ) (st : Serializer D) (cnt n : ℕ) (ps : List (Option (Key × List ℕ) × Item R))
      → Inv s root limit k st
      → Known s root st.key_info cnt
      → AllMembers asserts mods s limit cnt ps
      → Returns (Goes k st) (fill_members lib asserts mods widen root s st cnt n ps)
  unfolding fill_members
  fill_members-Inv k st cnt n [] i o h = (i, λ a x. x)
  fill_members-Inv k st cnt n (p ∷ ps) i o h =
      let parts = AllMembers-head cnt p ps h in
      Goes-and_then k st (fill_member lib asserts mods widen root s st cnt n p)
        (λ st'. fill_members lib asserts mods widen root s st' cnt n ps)
        (fill_member-Inv k st cnt n p i o parts.0)
        (λ st' g. fill_members-Inv k st' cnt n ps g.0 (g.1 cnt o) parts.1)

  fill_container-Inv :
      (k : ℕ) (st : Serializer D) (cnt n : ℕ) (c : Container R)
      → Inv s root limit k st
      → Known s root st.key_info cnt
      → AllHeld asserts mods s limit cnt c
      → Returns (Goes k st) (fill_container lib asserts mods widen root s st cnt n c)
  unfolding fill_container put_metainfo
  fill_container-Inv k st cnt n (array xs) i o h = fill_array-Inv k st cnt n xs 0 i o h
  fill_container-Inv k st cnt n (map m) i o h = fill_members-Inv k st cnt n _ i o h
  fill_container-Inv k st cnt n (form_map m) i o h =
      fill_members-Inv k _ cnt n _ (set_doc-Inv s root limit k st _ i) o h
  fill_container-Inv k st cnt n (integer_map m) i o h =
      fill_members-Inv k _ cnt n _ (set_doc-Inv s root limit k st _ i) o h

  module _ (readable : (a : ℕ) → a < limit → AllHeld asserts mods s limit a (s.objects a)) where
    fill_each-Inv :
        (k : ℕ) (st : Serializer D) (ps : List (ℕ × ℕ))
        → Inv s root limit k st
        → AllPlaced s root limit st.key_info ps
        → Returns (Goes k st) (fill_each lib asserts mods widen root s st ps)
    unfolding fill_each
    fill_each-Inv k st [] i h = (i, λ a x. x)
    fill_each-Inv k st ((cnt, n) ∷ ps) i h =
        Goes-and_then k st (fill_container lib asserts mods widen root s st cnt n (s.objects cnt))
          (λ st'. fill_each lib asserts mods widen root s st' ps)
          (fill_container-Inv k st cnt n (s.objects cnt) i h.0.1 (readable cnt h.0.0))
          (λ st' g. fill_each-Inv k st' ps g.0 (AllPlaced-More s root limit st st' ps g.1 h.1))

    -- A round that leaves objects waiting has given nodes to as many that had none.
    pub rounds-Inv :
        (fuel : ℕ) (st : Serializer D) (ps : List (ℕ × ℕ))
        → AllClimb s root st.key_info
        → contains st.serialized_objects root ≡ true
        → ((a : ℕ) → contains st.serialized_objects a ≡ true → Known s root st.key_info a)
        → AllPlaced s root limit st.key_info ps
        → length ps + unseen limit st.serialized_objects ≤ fuel
        → Returns
            (λ st'.
              AllClimb s root st'.key_info
              × (contains st'.serialized_objects root ≡ true)
              × ((a : ℕ) → contains st'.serialized_objects a ≡ true → Known s root st'.key_info a))
            (rounds lib asserts mods widen root s fuel st ps)
    unfolding rounds
    rounds-Inv zero st [] c t e b h = (c, t, e)
    rounds-Inv (suc fuel) st [] c t e b h = (c, t, e)
    rounds-Inv zero st (p ∷ ps) c t e b h = absurd (omega (arith, h))
    rounds-Inv (suc fuel) st (p ∷ ps) c t e b h =
        let start = record st { to_fill = [] } in
        let i : Inv s root limit (unseen limit st.serialized_objects) start = record {
          counted = omega arith;
          placed = tt;
          climbs = c;
          rooted = t;
          known = e;
        } in
        Returns-and_then _ _ (fill_each lib asserts mods widen root s start (p ∷ ps))
          (λ st'. rounds lib asserts mods widen root s fuel st' st'.to_fill)
          (fill_each-Inv _ start (p ∷ ps) i b)
          (λ st' g.
            rounds-Inv fuel st' st'.to_fill g.0.climbs g.0.rooted g.0.known g.0.placed
              (omega (arith, g.0.counted, h)))
