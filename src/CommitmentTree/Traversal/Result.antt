-- ===== src/CommitmentTree/Traversal/Result.antt =====
-- When the queue is empty, the dictionary holds the calculation of the root and nothing else.
use starkex_data_availabilit.Prelude.{
  ℕ, zero, suc, ◌+◌, ◌*◌, ◌/◌, ◌^◌, ◌≤◌, ◌<◌, ◌≡◌, ◌≢◌, true, false, none, some, List, [], ◌∷◌,
  ℕ_eq, arith, refl, ◌>>◌, ◌∙◌, sym, length, inl, inr, Option-cases, guard,
}
use starkex_data_availabilit.Prelude.Dict.{Dict, IsDict}
use starkex_data_availabilit.Prelude.Dict
use starkex_data_availabilit.CommitmentTree.UpdateTree.{
  UpdateTree, no_update, leaf, pair, build_update_tree,
}
use starkex_data_availabilit.CommitmentTree.Traversal.{
  TreeOps, NodeType, only_node, build_updated_calculation, updated_calculation,
}
use starkex_data_availabilit.CommitmentTree.Traversal.Ghost.{idle, queued, waiting, set_at}
use starkex_data_availabilit.CommitmentTree.Traversal.Queue.{depth, weight, total}
use starkex_data_availabilit.CommitmentTree.Traversal.Visit.{Good}
use starkex_data_availabilit.CommitmentTree.Traversal.Schedule.{traverse_tree_lem}

module _ {N C L : Type 0} (ops : TreeOps N C L) where
  only_node_lem :
      (d : Dict ℕ C) (c : C)
      → IsDict d
      → Dict.get d 1 ≡ some c
      → ((i : ℕ) → i ≢ 1 → Dict.has d i ≡ false)
      → only_node ops d ≡ some c
  unfolding only_node
  only_node_lem [] c u e others = cc
  only_node_lem ((i, x) ∷ []) c u e others = ground arith
  only_node_lem ((i, x) ∷ (j, y) ∷ d) c u e others = ground (arith, others i, others j)

  module _ (bound : ℕ) (c : C) (d : Dict ℕ C) (g : Good ops bound c [] d) where
    -- A waiting node has a waiting child, so there is none below any bound.
    no_waiting : (n k : ℕ) → bound ≤ k + n → g.status k ≡ waiting → ⊥
    no_waiting zero k le w = omega (arith, (g.consistent.waits k w).1)
    no_waiting (suc n) k le w =
        let z = g.consistent.zero_idle in
        let u = g.consistent.unready k w in
        let l = g.consistent.links (2 * k) in
        let r = g.consistent.links (2 * k + 1) in
        let ql = g.queue.listed (2 * k) in
        let qr = g.queue.listed (2 * k + 1) in
        let left = no_waiting n (2 * k) in let right = no_waiting n (2 * k + 1) in ground arith

    nothing_else : (i : ℕ) → i ≢ 1 → Dict.has d i ≡ false
    nothing_else i ne =
        let z = g.consistent.zero_idle in
        let l = g.consistent.links i in
        let w = no_waiting bound (i / 2) (omega arith) in
        let e = g.consistent.dict i in ground arith

    root_ready : Dict.has d 1 ≡ true
    root_ready =
        let r = g.consistent.root in
        let q = g.queue.listed 1 in
        let w = no_waiting bound 1 (omega arith) in let e = g.consistent.dict 1 in ground arith

    root_value : Dict.get d 1 ≡ some c
    root_value = elim (Option-cases (Dict.get d 1)) [
      | inl missing ↦ let e = root_ready in absurd (ground arith)
      | inr (x, found) ↦ found ∙ sym (g.consistent.values 1 x found) ∙ g.root
    ]

    Good-only_node : only_node ops d ≡ some c
    Good-only_node = only_node_lem d c g.consistent.is_dict root_value nothing_else

  -- The traversal starts with the root on the queue.
  start-Good :
      (tree : N) (u : UpdateTree L) (c : C)
      → updated_calculation ops tree u ≡ some c
      → Good ops (2 * 2 ^ depth u) c (record { index = 1; tree = tree; update = u } ∷ []) []
  start-Good tree u c runs = record {
    status = set_at (λ _. idle) 1 queued;
    ghost = set_at (λ _. none) 1 (some c);
    consistent = record {
      zero_idle = refl;
      root = λ e. cc e;
      dict = λ i. ground arith;
      values = λ i x e. cc e;
      links = λ i lt. ground arith;
      waits = λ k e. absurd (ground arith);
      unready = λ k e ne. absurd (ground arith);
      is_dict = tt;
    };
    queue = record {
      items =
          (record { status = refl; value = c; runs = runs; ghost = refl; fits = omega arith }, tt);
      listed = λ i. ground arith;
      distinct = (refl, tt);
    };
    root = refl;
  }

  -- Under every schedule that is long enough, so whatever the number of workers and the order in
  -- which they take nodes from the queue, the traversal returns the calculation that the recursion
  -- on the update tree gives, where that recursion gives one. Long enough is a visit for each node
  -- of the update tree.
  pub build_updated_calculation_lem :
      (schedule : List ℕ) (tree : N) (height : ℕ) (modifications : List (ℕ × L)) (u : UpdateTree L)
      (c : C)
      → build_update_tree height modifications ≡ some u
      → updated_calculation ops tree u ≡ some c
      → weight u ≤ length schedule
      → build_updated_calculation ops schedule tree height modifications ≡ some c
  unfolding build_updated_calculation
  build_updated_calculation_lem schedule tree height modifications u c built runs enough =
      let (p, e, g, count) =
        traverse_tree_lem ops (2 * 2 ^ depth u) c schedule
          (record { index = 1; tree = tree; update = u } ∷ []) [] (start-Good tree u c runs) in
      rw (built, e) (finish p.queue p.updated_nodes g (omega (arith, count)))
    where
      positive : (v : UpdateTree L) → 0 < weight v
      positive no_update = omega arith
      positive (leaf x) = omega arith
      positive (pair l r) = omega arith

      finish :
          (q : List (NodeType N L)) (d : Dict ℕ C)
          → Good ops (2 * 2 ^ depth u) c q d
          → total q ≡ 0
          → (guard (elim q [ [] ↦ true | _ ↦ false ]) >> only_node ops d) ≡ some c
      finish [] d g z = Good-only_node (2 * 2 ^ depth u) c d g
      finish (x ∷ q) d g z = absurd (omega (arith, positive x.update))
