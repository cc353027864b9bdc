-- ===== src/Json/Resolves.antt =====
-- The text of a reference, as `path_to_object` writes it, is resolved by `resolve_references` to the
-- object that it was written for.
use jcontainers_ng.Common.{
  ℕ, ◌≤◌, ◌<◌, ◌≡◌, refl, ap, sym, ◌∙◌, Bool, true, false, ◌==◌, Option, none, some, List, [], ◌∷◌,
  ◌++◌, arith, length, Option-cases, inl, inr, some-eq,
}
use mathlib.Core.List.{append_assoc}
use jcontainers_ng.Index.{done, ◌>>=◌}
use jcontainers_ng.Item.{Item, object_of}
use jcontainers_ng.Forms.Strings.{Mods, is_form_string, strip_prefix}
use jcontainers_ng.Forms.Digits.{strip_prefix-append}
use jcontainers_ng.Paths.{Key, int_key, string_key, form_key, Store, u_access_value}
use jcontainers_ng.Paths.Access.{get}
use jcontainers_ng.Paths.Parse.{is_key_end, is_bracket, string_path_length_max}
use jcontainers_ng.Paths.Segments.{
  Segment, named, indexed, key_of, print_path, IsWritable, AreWritable, none_pass,
}
use jcontainers_ng.Paths.Walk.{walk, walk_value}
use jcontainers_ng.Paths.Constant.{get-walk}
use jcontainers_ng.Json.{Json, Jansson, reference_prefix, extract_path}
use jcontainers_ng.Json.References.{resolve_path}
use jcontainers_ng.Json.Keys.{
  KeyInfo, contains, climb, key_text, keys_text, path_to_object, print_int,
}
use jcontainers_ng.Json.Decimal.{InRange, stoi-print_int, print_int-none_pass, print_int_head}
use jcontainers_ng.Json.Trails.{follow}
use jcontainers_ng.Json.Writing.{Serializer, write_json}
use jcontainers_ng.Json.Written.{IsReadable}
use jcontainers_ng.Json.Leads.{write_json-LeadsTo}

-- A name without the bytes that end a name, or an index of an `int32_t`.
abbrev pub IsPlain : Key → Type 0
IsPlain (string_key s) =
    (0 < length s) × (none_pass is_key_end s ≡ true) × (none_pass (λ c. c == 0) s ≡ true)
IsPlain (int_key i) = InRange i
IsPlain (form_key f) = ⊥

abbrev pub ArePlain : List Key → Type 0
ArePlain [] = Unit
ArePlain (key ∷ keys) = IsPlain key × ArePlain keys

-- The piece of a path that a key is written as.
abbrev pub segment_of : Key → Segment
segment_of (string_key s) = named s
segment_of (int_key i) = indexed (print_int i) i
segment_of (form_key f) = named []

abbrev pub segments_of : List Key → List Segment
segments_of [] = []
segments_of (key ∷ keys) = segment_of key ∷ segments_of keys

none_pass-append :
    (test : ℕ → Bool) (s t : List ℕ)
    → none_pass test s ≡ true
    → none_pass test t ≡ true
    → none_pass test (s ++ t) ≡ true
unfolding none_pass
none_pass-append test [] t h k = k
none_pass-append test (c ∷ s) t h k = ground (arith, none_pass-append test s t)

not_form_string : (c : ℕ) (t : List ℕ) → c < b'_' → is_form_string (c ∷ t) ≡ false
unfolding is_form_string strip_prefix
not_form_string c t h = ground arith

IsWritable-segment_of : (key : Key) → IsPlain key → IsWritable (segment_of key)
IsWritable-segment_of (string_key s) h = (h.0, h.1)
IsWritable-segment_of (int_key i) h =
    let (c, t, e, b) = print_int_head i h in
    (
      rw e (omega arith),
      print_int-none_pass is_bracket i (λ d k. ground arith) refl,
      stoi-print_int i h,
      λ rest. rw e (not_form_string c (t ++ rest) b),
    )
IsWritable-segment_of (form_key f) h = absurd h

AreWritable-segments_of : (keys : List Key) → ArePlain keys → AreWritable (segments_of keys)
AreWritable-segments_of [] h = tt
AreWritable-segments_of (key ∷ keys) h =
    (IsWritable-segment_of key h.0, AreWritable-segments_of keys h.1)

no_zero :
    (keys : List Key)
    → ArePlain keys
    → none_pass (λ c. c == 0) (print_path (segments_of keys)) ≡ true
unfolding none_pass
no_zero [] h = refl
no_zero (string_key s ∷ keys) h = none_pass-append _ s _ h.0.2 (no_zero keys h.1)
no_zero (int_key i ∷ keys) h =
    none_pass-append _ (print_int i) _ (print_int-none_pass _ i (λ d k. ground arith) refl)
      (no_zero keys h.1)
no_zero (form_key f ∷ keys) h = absurd h.0

keys_text-plain :
    (mods : Mods) (keys : List Key)
    → ArePlain keys
    → keys_text true mods keys ≡ done (print_path (segments_of keys))
unfolding keys_text key_text
keys_text-plain mods [] h = refl
keys_text-plain mods (string_key s ∷ keys) h = rw (keys_text-plain mods keys h.1, ◌>>=◌) refl
keys_text-plain mods (int_key i ∷ keys) h =
    rw (keys_text-plain mods keys h.1, ◌>>=◌)
      (ap (λ (t : List ℕ). done (b'[' ∷ t))
        (append_assoc (print_int i) (b']' ∷ []) (print_path (segments_of keys))))
keys_text-plain mods (form_key f ∷ keys) h = absurd h.0

module _ {R : Type 0} (s : Store R) where
  follow-none : (keys : List Key) → follow s none keys ≡ none
  unfolding follow
  follow-none [] = refl
  follow-none (key ∷ keys) = refl

  key_of-segment_of : (key : Key) → IsPlain key → key_of (segment_of key) ≡ key
  key_of-segment_of (string_key t) h = refl
  key_of-segment_of (int_key i) h = refl
  key_of-segment_of (form_key f) h = absurd h

  -- Following keys is a walk along their segments.
  walk-follow :
      (a : ℕ) (key : Key) (keys : List Key) (obj : ℕ)
      → ArePlain (key ∷ keys)
      → follow s (some a) (key ∷ keys) ≡ some obj
      → (itm : Item R) × (walk_value s a (segment_of key) (segments_of keys) ≡ some itm)
        × (object_of itm ≡ some obj)
  unfolding follow walk walk_value
  walk-follow a key [] obj h f = elim (Option-cases (u_access_value (s.objects a) key)) [
    | inl nothing ↦ cc (rw (nothing, follow) at f)
    | inr (itm, found) ↦ (itm, rw (key_of-segment_of key h.0) found, rw found at f)
  ]
  walk-follow a key (key' ∷ keys) obj h f = elim (Option-cases (u_access_value (s.objects a) key)) [
    | inl nothing ↦ cc (rw (nothing, follow) at f)
    | inr (itm, found) ↦ elim (Option-cases (object_of itm)) [
      | inl plain ↦ cc (rw plain at (rw (found, follow) at f))
      | inr (o, refers) ↦
          let next : follow s (some o) (key' ∷ keys) ≡ some obj =
            rw refers at (rw (found, follow) at f) in
          let (itm', value, held) = walk-follow o key' keys obj h.1 next in
          (
            itm',
            rw (key_of-segment_of key h.0, walk_value) (rw (found, walk) (rw (refers, walk) value)),
            held,
          )
    ]
  ]

  module _ (mods : Mods) (root : ℕ) where
    print_path_pos : (g : Segment) (gs : List Segment) → 0 < length (print_path (g ∷ gs))
    print_path_pos (named t) gs = omega arith
    print_path_pos (indexed t i) gs = omega arith

    resolve_path-get :
        (t : List ℕ) (itm : Item R)
        → 0 < length t
        → get mods s root (some t) ≡ done (some (some itm))
        → resolve_path mods s root t ≡ done (some (object_of itm))
    unfolding resolve_path
    resolve_path-get [] itm h e = absurd (omega arith)
    resolve_path-get (c ∷ t) itm h e = rw (e, ◌>>=◌) refl

    -- The printed keys are resolved to the object that they lead to.
    resolve_path-follow :
        (keys : List Key) (obj : ℕ)
        → ArePlain keys
        → length (print_path (segments_of keys)) ≤ string_path_length_max
        → follow s (some root) keys ≡ some obj
        → resolve_path mods s root (print_path (segments_of keys)) ≡ done (some (some obj))
    unfolding resolve_path follow
    resolve_path-follow [] obj h b f = ap (λ o. done (some o)) f
    resolve_path-follow (key ∷ keys) obj h b f =
        let (itm, value, held) = walk-follow root key keys obj h f in
        let found =
          get-walk mods s root (segment_of key) (segments_of keys)
            (AreWritable-segments_of (key ∷ keys) h) (no_zero (key ∷ keys) h) b in
        resolve_path-get (print_path (segments_of (key ∷ keys))) itm
          (print_path_pos (segment_of key) (segments_of keys))
          (found ∙ ap (λ v. done (some v)) value)
        ∙ ap (λ o. done (some o)) held

-- What a reference is read as.
abbrev pub Resolves : {R : Type 0} → Mods → Store R → KeyInfo → ℕ → ℕ → Type 0
Resolves mods s info root obj =
    (t : List ℕ) × (path_to_object true mods info root obj ≡ done (some (reference_prefix ++ t)))
    × (extract_path (reference_prefix ++ t) ≡ some t)
    × (resolve_path mods s root t ≡ done (some (some obj)))

-- After the serialisation of a store whose containers list their items under the items' keys, and with
-- `assert` evaluated: for an object that got a node and whose keys from the root are indices and plain
-- names, of at most 1024 bytes in all, `path_to_object` writes a reference, and the path that
-- `extract_path` takes from it is resolved, in the same store from the same root, to that object.
pub write_json-resolve_path :
    {R D : Type 0} (lib : Jansson D) (mods : Mods) (widen : R → D) (s : Store R) (root : ℕ)
    → IsReadable true mods s
    → root < s.next_address
    → (r : Option (Json D) × Serializer D) → write_json lib true mods widen s root ≡ done (some r)
    → (obj : ℕ) (keys : List Key) → contains r.1.serialized_objects obj ≡ true
    → climb (length r.1.key_info) r.1.key_info root obj [] ≡ some keys
    → ArePlain keys
    → length (print_path (segments_of keys)) ≤ string_path_length_max
    → Resolves mods s r.1.key_info root obj
unfolding path_to_object extract_path
write_json-resolve_path lib mods widen s root readable h r e obj keys c k plain b =
    let (rooted, leads) = rw e at (write_json-LeadsTo lib true mods widen s root readable h) in
    let (keys', climbs, follows) = leads obj c in
    let same : keys' ≡ keys = some-eq (sym climbs ∙ k) in
    let t = print_path (segments_of keys) in
    (
      t,
      rw (k, path_to_object) (rw (keys_text-plain mods keys plain, ◌>>=◌) refl),
      strip_prefix-append reference_prefix t,
      resolve_path-follow s mods root keys obj plain b (rw same at follows),
    )
