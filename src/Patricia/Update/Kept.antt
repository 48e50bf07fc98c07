-- ===== src/Patricia/Update/Kept.antt =====
-- The calculation of an update keeps the facts of its leaves.
use starkex_data_availabilit.Prelude.{
  ℕ, zero, suc, ◌+◌, ◌-◌, ◌^◌, ◌≡◌, ◌⊎◌, inl, inr, refl, sym, ap, ◌∙◌, subst, Option, some, none,
  Bool, true, false, not, ◌&&◌, ◌||◌, ◌==◌, ℕ_eq, ltb, if◌then◌else◌, Bool-cases, >>=-eq-some,
  after_guard, ◌>>=◌,
}
use starkex_data_availabilit.Storage.{Db, get_or_fail}
use starkex_data_availabilit.CommitmentTree.Leaf.{LeafClass}
use starkex_data_availabilit.CommitmentTree.UpdateTree.{UpdateTree, no_update, leaf, pair}
use starkex_data_availabilit.CommitmentTree.UpdateTree.Correct.{update_at}
use starkex_data_availabilit.CommitmentTree.Traversal.{updated_calculation}
use starkex_data_availabilit.Patricia.Nodes.{HashFunc, verify_path_value}
use starkex_data_availabilit.Patricia.VirtualNode.{VirtualPatriciaNode, get_children}
use starkex_data_availabilit.Patricia.Calculation.{
  HashCalculation, constant, leaf_fact, binary, edge, VirtualCalculationNode, make_calc, is_empty,
  is_empty_calculation, decommit, decommit_bottom, combine, combine_to_virtual_edge_node,
  combine_to_binary_node, commit, create_from_fact, empty_node,
}
use starkex_data_availabilit.Patricia.Calculation.Meaning.{digest, AllStored}
use starkex_data_availabilit.Patricia.Update.{patricia_ops}

module _ {L : Type 0} (f : L) where
  -- The calculation makes the leaf fact.
  abbrev pub Has : HashCalculation L → Type 0
  Has (constant value) = ⊥
  Has (leaf_fact fact) = fact ≡ f
  Has (binary l r) = Has l ⊎ Has r
  Has (edge b p n) = Has b

  pub Has-AllStored :
      (hash_func : HashFunc) (lc : LeafClass L) (db : Db) (c : HashCalculation L)
      → Has c
      → AllStored hash_func lc db c
      → get_or_fail lc.cls db (digest lc f) ≡ some f
  Has-AllStored hash_func lc db (constant value) h st = absurd h
  Has-AllStored hash_func lc db (leaf_fact fact) h st =
      subst (λ g. get_or_fail lc.cls db (digest lc g) ≡ some g) h st
  Has-AllStored hash_func lc db (binary l r) (inl h) st = Has-AllStored hash_func lc db l h st.0
  Has-AllStored hash_func lc db (binary l r) (inr h) st = Has-AllStored hash_func lc db r h st.1
  Has-AllStored hash_func lc db (edge b p n) h st = Has-AllStored hash_func lc db b h st.0

  pub commit-Has : (c : VirtualCalculationNode L) → Has c.bottom_calculation → Has (commit c)
  unfolding commit
  commit-Has c h = elim (Bool-cases (not (c.length == 0))) [ inl e ↦ rw e h | inr e ↦ rw e h ]

  make_calc-Has :
      (b : HashCalculation L) (p n h : ℕ) (c : VirtualCalculationNode L)
      → make_calc b p n h ≡ some c
      → Has b
      → Has c.bottom_calculation
  unfolding make_calc
  make_calc-Has b p n h c e has =
      let (u, _, q) = >>=-eq-some (verify_path_value p n) _ e in
      subst Has (bottom_of b p n h c q) has
    where
      bottom_of :
          (b : HashCalculation L) (p n h : ℕ) (c : VirtualCalculationNode L)
          → some (record { bottom_calculation = b; path = p; length = n; height = h }) ≡ some c
          → b ≡ c.bottom_calculation
      bottom_of b p n h c q = ap (λ o. elim o [ none ↦ b | some x ↦ x.bottom_calculation ]) q

  module _ (lc : LeafClass L) (ne : lc.is_empty f ≡ false) (db : Db) where
    Has-nonempty : (c : HashCalculation L) → Has c → is_empty_calculation lc c ≡ false
    unfolding is_empty_calculation
    Has-nonempty (constant value) h = absurd h
    Has-nonempty (leaf_fact fact) h = ap lc.is_empty h ∙ ne
    Has-nonempty (binary l r) h = refl
    Has-nonempty (edge b p n) h = refl

    decommit_bottom-Has :
        (c d : VirtualCalculationNode L) (b : HashCalculation L)
        → c.bottom_calculation ≡ b
        → decommit_bottom db c b ≡ some d
        → Has b
        → Has d.bottom_calculation
    unfolding decommit_bottom
    decommit_bottom-Has c d (constant value) q e h = absurd h
    decommit_bottom-Has c d (leaf_fact fact) q e h =
        let same : c ≡ d = cc e in subst (λ x. Has x.bottom_calculation) same (subst Has (sym q) h)
    decommit_bottom-Has c d (binary l r) q e h =
        let same : c ≡ d = cc e in subst (λ x. Has x.bottom_calculation) same (subst Has (sym q) h)
    decommit_bottom-Has c d (edge b p n) q e h = make_calc-Has b p n c.height d e h

    decommit-Has :
        (c d : VirtualCalculationNode L)
        → decommit lc db c ≡ some d
        → Has c.bottom_calculation
        → Has d.bottom_calculation
    unfolding decommit
    decommit-Has c d e h =
        elim (Bool-cases (c.height == 0 || is_empty lc c || not (c.length == 0))) [
          | inl b ↦
              let same : c ≡ d = cc (rw b at e) in subst (λ x. Has x.bottom_calculation) same h
          | inr b ↦ decommit_bottom-Has c d c.bottom_calculation refl (rw b at e) h
        ]

    child-Has :
        (x c : VirtualCalculationNode L) (p n h : VirtualCalculationNode L → ℕ)
        → (decommit lc db x >>= (λ d. make_calc d.bottom_calculation (p d) (n d) (h d))) ≡ some c
        → Has x.bottom_calculation
        → Has c.bottom_calculation
    child-Has x c p n h e has =
        let (d, q, m) =
          >>=-eq-some (decommit lc db x) (λ d. make_calc d.bottom_calculation (p d) (n d) (h d))
            e in
        make_calc-Has d.bottom_calculation (p d) (n d) (h d) c m (decommit-Has x d q has)

    edge-Has :
        (l r c : VirtualCalculationNode L)
        → combine_to_virtual_edge_node lc db l r ≡ some c
        → Has (if is_empty lc l then r else l).bottom_calculation
        → Has c.bottom_calculation
    unfolding combine_to_virtual_edge_node
    edge-Has l r c e h =
        child-Has (if is_empty lc l then r else l) c
          (λ d. if is_empty lc l then d.path + 2 ^ d.length else d.path) (λ d. d.length + 1)
          (λ d. d.height + 1) (after_guard _ _ e) h

    -- The edge branch of `combine`.
    one_empty :
        (a b : Bool) (e n m : Option (VirtualCalculationNode L)) (c : VirtualCalculationNode L)
        → (if a && b then e else if not a && not b then n else m) ≡ some c
        → a ≡ not b
        → m ≡ some c
    one_empty true true e n m c p q = absurd (cc q)
    one_empty true false e n m c p q = p
    one_empty false true e n m c p q = p
    one_empty false false e n m c p q = absurd (cc q)

    combine-Has :
        (l r c : VirtualCalculationNode L)
        → combine lc db l r ≡ some c
        → Has l.bottom_calculation ⊎ Has r.bottom_calculation
        → Has c.bottom_calculation
    unfolding combine combine_to_binary_node
    combine-Has l r c e h =
        let p = after_guard (r.height == l.height) _ e in
        elim (Bool-cases (is_empty lc l)) [
          | inl el ↦ elim (Bool-cases (is_empty lc r)) [
            | inl er ↦ absurd (none_empty el er h)
            | inr er ↦
                edge-Has l r c
                  (one_empty (is_empty lc l) (is_empty lc r) (some (empty_node (r.height + 1)))
                    (some (combine_to_binary_node l r)) (combine_to_virtual_edge_node lc db l r) c p
                    (cc (el, er)))
                  (rw el (right el h))
          ]
          | inr el ↦ elim (Bool-cases (is_empty lc r)) [
            | inl er ↦
                edge-Has l r c
                  (one_empty (is_empty lc l) (is_empty lc r) (some (empty_node (r.height + 1)))
                    (some (combine_to_binary_node l r)) (combine_to_virtual_edge_node lc db l r) c p
                    (cc (el, er)))
                  (rw el (left er h))
            | inr er ↦
                let same : combine_to_binary_node l r ≡ c = cc (rw (el, er) at p) in
                subst (λ x. Has x.bottom_calculation) same (both h)
          ]
        ]
      where
        right :
            is_empty lc l ≡ true
            → Has l.bottom_calculation ⊎ Has r.bottom_calculation
            → Has r.bottom_calculation
        right el (inl h) = absurd (cc (el, Has-nonempty l.bottom_calculation h))
        right el (inr h) = h

        left :
            is_empty lc r ≡ true
            → Has l.bottom_calculation ⊎ Has r.bottom_calculation
            → Has l.bottom_calculation
        left er (inl h) = h
        left er (inr h) = absurd (cc (er, Has-nonempty r.bottom_calculation h))

        none_empty :
            is_empty lc l ≡ true
            → is_empty lc r ≡ true
            → Has l.bottom_calculation ⊎ Has r.bottom_calculation
            → ⊥
        none_empty el er (inl h) = absurd (cc (el, Has-nonempty l.bottom_calculation h))
        none_empty el er (inr h) = absurd (cc (er, Has-nonempty r.bottom_calculation h))

        both :
            Has l.bottom_calculation ⊎ Has r.bottom_calculation → Has (binary (commit l) (commit r))
        both (inl h) = inl (commit-Has l h)
        both (inr h) = inr (commit-Has r h)

    -- The leaves of the update that are not empty.
    pub updated_calculation-Has :
        (h : ℕ) (node : VirtualPatriciaNode) (u : UpdateTree L) (c : VirtualCalculationNode L)
        (i : ℕ)
        → updated_calculation (patricia_ops lc db) node u ≡ some c
        → update_at u h i ≡ some f
        → Has c.bottom_calculation
    unfolding updated_calculation patricia_ops create_from_fact
    updated_calculation-Has h node no_update c i e q = absurd (cc q)
    updated_calculation-Has zero node (leaf fact) c i e q =
        let p = after_guard (node.height == 0) _ e in
        let same : create_from_fact fact ≡ c = cc p in
        subst (λ x. Has x.bottom_calculation) same (made fact (cc q))
      where
        made : (fact : L) → fact ≡ f → Has (create_from_fact fact).bottom_calculation
        made fact q = q
    updated_calculation-Has (suc h) node (leaf fact) c i e q = absurd (cc q)
    updated_calculation-Has zero node (pair l r) c i e q = absurd (cc q)
    updated_calculation-Has (suc h) node (pair l r) c i e q =
        let e1 = after_guard (not (node.height == 0)) _ e in
        let (ab, kids, e2) = >>=-eq-some (get_children db node) _ e1 in
        let (x, ex, e3) = >>=-eq-some (updated_calculation (patricia_ops lc db) ab.0 l) _ e2 in
        let (y, ey, e4) = >>=-eq-some (updated_calculation (patricia_ops lc db) ab.1 r) _ e3 in
        combine-Has x y c e4 (elim (Bool-cases (ltb i (2 ^ h))) [
          | inl b ↦ inl (updated_calculation-Has h ab.0 l x i ex (rw b at q))
          | inr b ↦ inr (updated_calculation-Has h ab.1 r y (i - 2 ^ h) ey (rw b at q))
        ])
