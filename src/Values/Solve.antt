-- ===== src/Values/Solve.antt =====
-- Paths through JValue: what `solve_setter` wrote is what `resolve_getter` reads.
use jcontainers_ng.Common.{
  ℕ, ◌≤◌, ◌<◌, ◌≡◌, refl, ap, sym, ◌∙◌, true, none, some, List, [], ◌∷◌, length, ◌==◌, some-eq,
}
use jcontainers_ng.Index.{done}
use jcontainers_ng.Item.{Reals, Item}
use jcontainers_ng.Maps
use jcontainers_ng.Forms.Strings.{Mods}
use jcontainers_ng.Paths.{Store, map, name_lt}
use jcontainers_ng.Paths.Parse.{string_path_length_max}
use jcontainers_ng.Paths.Segments.{print_path, AreWritable, none_pass}
use jcontainers_ng.Paths.Create.{named_all, assign-creative_others}
use jcontainers_ng.Paths.Solve.{resolve-get}
use jcontainers_ng.Values.{read_each, resolve_getter, solve_setter}
use jcontainers_ng.Paths.Resolve.{resolve}

done-eq : {A : Type 0} {x y : A} → done x ≡ done y → x ≡ y
done-eq h = cc

module _ (r : Reals) (mods : Mods) {T : Type 0} (read_as : Item r.Real → T) where
  open r use {Real}

  -- One visit with an item reads the item.
  resolve_getter-visit :
      (s : Store Real) (obj : ℕ) (path : List ℕ) (itm : Item Real) (val : T)
      → resolve r mods s (some obj) (some path) ≡ done (some (some itm ∷ []))
      → resolve_getter r mods read_as s (some obj) (some path) val ≡ done (some (read_as itm))
  unfolding resolve_getter read_each
  resolve_getter-visit s obj path itm val e = rw (e, resolve_getter) refl

  -- A written path of names without a zero byte, of at most 1024 bytes, whose first name is missing
  -- from the map it starts at: `solve_setter` that may create keys succeeds, and `resolve_getter` on
  -- the same path then reads the value, whatever its default is.
  pub resolve_getter-solve_setter :
      (s : Store Real) (obj : ℕ) (m : List (List ℕ × Item Real)) (n : List ℕ) (ns : List (List ℕ))
      (value : Item Real) (val : T)
      → AreWritable (named_all (n ∷ ns))
      → none_pass (λ c. c == 0) (print_path (named_all (n ∷ ns))) ≡ true
      → length (print_path (named_all (n ∷ ns))) ≤ string_path_length_max
      → s.objects obj ≡ map m
      → Maps.u_get name_lt m n ≡ none
      → obj < s.next_address
      → let path = some (print_path (named_all (n ∷ ns))) in
        (s' : Store Real) × (solve_setter mods s (some obj) path value true
          ≡ done (some (true, s')))
        × (resolve_getter r mods read_as s' (some obj) path val ≡ done (some (read_as value)))
  unfolding solve_setter
  resolve_getter-solve_setter s obj m n ns value val w z b e missing old =
      let path = print_path (named_all (n ∷ ns)) in
      let (s', set, there, _) =
        assign-creative_others mods s obj m n ns value w z b e missing old in
      let (v, visits, got) = resolve-get r mods s' obj n ns w z b in
      let same : v ≡ some value = some-eq (done-eq (sym got ∙ there)) in
      (
        s',
        set,
        resolve_getter-visit s' obj path value val (visits ∙ ap (λ v. done (some (v ∷ []))) same),
      )
