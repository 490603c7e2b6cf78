-- ===== src/Utils/Reload.antt =====
-- utils.c: what the lists with versions hold after a reload.
use netifd.Prelude.{◌≡◌, refl, subst, sym, ap, ◌∙◌, List, [], ◌∷◌, ◌++◌, map, All, arith}
use netifd.Prelude.Int.{ℤ, pos, ◌+ℤ◌, ◌≤ℤ◌, +ℤ_parts}
use netifd.Utils.Vlist.{
  Node, Tree, flushed, vlist_simple_update, vlist_simple_add, flush_from, vlist_simple_flush,
  add_nodes, vlist_simple_replace,
}

module _ {A : Type 0} where
  abbrev pub items : List (Node A) → List A
  items l = map (λ n. n.item) l

  -- Every node is of a version that the tree has had, and none is negative.
  abbrev pub IsSettled : Tree A → Type 0
  IsSettled t = All (λ (n : Node A). (pos 0 ≤ℤ n.version) × (n.version ≤ℤ t.version)) t.list

  -- All nodes are of this version.
  abbrev AllOf : ℤ → List (Node A) → Type 0
  AllOf v l = All (λ (n : Node A). n.version ≡ v) l

  stamp : ℤ → List (Node A) → List (Node A)
  stamp v [] = []
  stamp v (n ∷ l) = record { item = n.item; version = v } ∷ stamp v l

  append_nil : (l : List (Node A)) → l ++ [] ≡ l
  append_nil [] = refl
  append_nil (n ∷ l) = cc (append_nil l)

  append_assoc : (l m k : List (Node A)) → (l ++ m) ++ k ≡ l ++ (m ++ k)
  append_assoc [] m k = refl
  append_assoc (n ∷ l) m k = cc (append_assoc l m k)

  add_nodes-stamp :
      (l : List (Node A)) (t : Tree A)
      → add_nodes l t ≡ record { list = t.list ++ stamp t.version l; version = t.version }
  unfolding vlist_simple_add stamp
  add_nodes-stamp [] t = cc (append_nil t.list)
  add_nodes-stamp (n ∷ l) t =
      add_nodes-stamp l (vlist_simple_add n.item t)
      ∙ cc (
          append_assoc t.list (record { item = n.item; version = t.version } ∷ [])
            (stamp t.version l))

  flush_old :
      (v : ℤ) (l m : List (Node A))
      → pos 0 ≤ℤ v
      → All (λ (n : Node A). (pos 0 ≤ℤ n.version) × (n.version +ℤ pos 1 ≤ℤ v)) l
      → flush_from v (l ++ m) ≡ flush_from v m
  flush_old v [] m z a = refl
  flush_old v (n ∷ l) m z (x, a) =
      ground (arith, x.0, x.1, +ℤ_parts n.version (pos 1), flush_old v l m z a)

  flush_new : (v : ℤ) (l : List (Node A)) → pos 0 ≤ℤ v → flush_from v (stamp v l) ≡ stamp v l
  unfolding stamp
  flush_new v [] z = refl
  flush_new v (n ∷ l) z = ground (arith, flush_new v l z)

  items-stamp : (v : ℤ) (l : List (Node A)) → items (stamp v l) ≡ items l
  unfolding stamp
  items-stamp v [] = refl
  items-stamp v (n ∷ l) = cc (items-stamp v l)

  older :
      (v : ℤ) (l : List (Node A))
      → All (λ (n : Node A). (pos 0 ≤ℤ n.version) × (n.version ≤ℤ v)) l
      → All (λ (n : Node A). (pos 0 ≤ℤ n.version) × (n.version +ℤ pos 1 ≤ℤ v +ℤ pos 1)) l
  older v [] a = tt
  older v (n ∷ l) ((z, le), a) =
      ((z, omega (arith, le, +ℤ_parts n.version (pos 1), +ℤ_parts v (pos 1))), older v l a)

  stamp-settled :
      (v : ℤ) (l : List (Node A))
      → pos 0 ≤ℤ v
      → All (λ (n : Node A). (pos 0 ≤ℤ n.version) × (n.version ≤ℤ v)) (stamp v l)
  unfolding stamp
  stamp-settled v [] z = tt
  stamp-settled v (n ∷ l) z = ((z, omega arith), stamp-settled v l z)

  replaced :
      (dest old : Tree A)
      → IsSettled dest
      → flushed ≤ℤ dest.version
      → (vlist_simple_replace dest old).0
        ≡ record { list = stamp (dest.version +ℤ pos 1) old.list; version = dest.version +ℤ pos 1 }
  unfolding vlist_simple_replace
  replaced dest old i v =
      let w = dest.version +ℤ pos 1 in
      let z : pos 0 ≤ℤ w = omega (arith, v, +ℤ_parts dest.version (pos 1)) in
      ap vlist_simple_flush (add_nodes-stamp old.list (vlist_simple_update dest))
      ∙ ap (λ l. record { list = l; version = w })
          (flush_old w dest.list (stamp w old.list) z (older dest.version dest.list i)
            ∙ flush_new w old.list z)

  -- vlist_simple_replace refines the replacement of a list: afterwards the tree holds the items of
  -- the other tree in their order and nothing else, the other tree is empty, and the versions of
  -- the nodes are again between 0 and that of the tree. This must hold of the versions before, and
  -- the version of the tree is at least -1.
  pub items-replace :
      (dest old : Tree A)
      → IsSettled dest
      → flushed ≤ℤ dest.version
      → let r = vlist_simple_replace dest old in
        (items r.0.list ≡ items old.list) × ((r.1.list ≡ []) × IsSettled r.0)
  unfolding vlist_simple_replace
  items-replace dest old i v =
      let w = dest.version +ℤ pos 1 in
      let z : pos 0 ≤ℤ w = omega (arith, v, +ℤ_parts dest.version (pos 1)) in
      let e = replaced dest old i v in
      (
        ap (λ (t : Tree A). items t.list) e ∙ items-stamp w old.list,
        (refl, subst IsSettled (sym e) (stamp-settled w old.list z)),
      )
