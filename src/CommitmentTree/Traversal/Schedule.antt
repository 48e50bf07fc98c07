-- ===== src/CommitmentTree/Traversal/Schedule.antt =====
-- Any schedule of visits keeps the invariant, so that the result does not depend on the schedule.
use starkex_data_availabilit.Prelude.{
  ℕ, suc, ◌+◌, ◌*◌, ◌^◌, ◌≤◌, ◌<◌, ◌≡◌, ◌≢◌, true, false, Option, some, List, [], ◌∷◌, ◌++◌, ◌==◌,
  ℕ_eq, arith, refl, All, ◌||◌, eqb_iff, ◌∙◌, sym, subst, ap, Bool-cases, Option-cases, ◌-◌, inl,
  inr, length,
}
use Prim.Native.Nat.{max}
use native.Mathlib.Nat.{pow-le-pow_right, one-le-pow}
use starkex_data_availabilit.Prelude.Dict.{Dict}
use starkex_data_availabilit.Prelude.Dict
use starkex_data_availabilit.CommitmentTree.UpdateTree.{UpdateTree, no_update, leaf, pair, elem}
use starkex_data_availabilit.CommitmentTree.UpdateTree.Correct.{two_pow}
use starkex_data_availabilit.CommitmentTree.Traversal.{
  TreeOps, NodeType, Progress, take_item, set_node, traverse_node, visit_node, visit_queue,
  traverse_tree, updated_calculation,
}
use starkex_data_availabilit.CommitmentTree.Traversal.Ghost.{
  Status, done, is_queued, set_at, Consistent,
}
use starkex_data_availabilit.CommitmentTree.Traversal.Climb.{update_necessary_lem}
use starkex_data_availabilit.CommitmentTree.Traversal.Queue.{
  depth, weight, total, indices, Distinct, ItemOk, QueueOk, take_item-All, take_item-elem,
  take_item-Distinct, take_item-total,
}
use starkex_data_availabilit.CommitmentTree.Traversal.Visit.{
  Good, index_pos, stored-Consistent, expanded, valued, expanded-Consistent, valued_same,
  child_left, child_right, children_idle,
}

fits_mul : (i q p b : ℕ) → q ≤ p → (i + 1) * (p + p) ≤ b → (2 * i + 1 + 1) * q ≤ b
fits_mul i q p b le h = grind arith

fits_child : (i k m b : ℕ) → k ≤ m → (i + 1) * 2 ^ suc m ≤ b → (2 * i + 1 + 1) * 2 ^ k ≤ b
fits_child i k m b le h =
    fits_mul i (2 ^ k) (2 ^ m) b (pow-le-pow_right {n = 2} (omega arith) {i = k} {j = m} le)
      (rw (two_pow m) at h)

fits_left_mul : (i q b : ℕ) → (2 * i + 1 + 1) * q ≤ b → (2 * i + 1) * q ≤ b
fits_left_mul i q b h = grind arith

fits_lt : (i k b : ℕ) → (i + 1) * 2 ^ k ≤ b → i < b
fits_lt i k b h = lt_of_mul i (2 ^ k) b (one-le-pow k 2 (omega arith)) h
  where
    lt_of_mul : (i q b : ℕ) → 1 ≤ q → (i + 1) * q ≤ b → i < b
    lt_of_mul i q b pos h = grind arith

module _ {N C L : Type 0} (ops : TreeOps N C L) where
  -- The parts of a recursion that returns on a pair of updates.
  record PairRuns (node : N) (lu ru : UpdateTree L) (c : C) : Type 0 where
    left : N
    right : N
    a : C
    b : C
    inner : ops.is_leaf node ≡ false
    children : ops.get_children node ≡ some (left, right)
    left_runs : updated_calculation ops left lu ≡ some a
    right_runs : updated_calculation ops right ru ≡ some b
    combines : ops.combine a b ≡ some c

  pair_runs :
      (node : N) (lu ru : UpdateTree L) (c : C)
      → updated_calculation ops node (pair lu ru) ≡ some c
      → PairRuns node lu ru c
  unfolding updated_calculation
  pair_runs node lu ru c h = elim (Bool-cases (ops.is_leaf node)) [
    | inl outer ↦ absurd (ground arith)
    | inr inner ↦ elim (Option-cases (ops.get_children node)) [
      | inl none_found ↦ absurd (ground arith)
      | inr ((left, right), children) ↦ elim (Option-cases (updated_calculation ops left lu)) [
        | inl stuck ↦ absurd (ground arith)
        | inr (a, left_runs) ↦ elim (Option-cases (updated_calculation ops right ru)) [
          | inl stuck ↦ absurd (ground arith)
          | inr (b, right_runs) ↦ record {
            left = left;
            right = right;
            a = a;
            b = b;
            inner = inner;
            children = children;
            left_runs = left_runs;
            right_runs = right_runs;
            combines = ground arith;
          }
        ]
      ]
    ]
  ]

  leaf-Runs :
      (node : N) (fact : L) (c : C)
      → updated_calculation ops node (leaf fact) ≡ some c
      → (ops.create_from_fact fact ≡ c) × (ops.is_leaf node ≡ true)
  unfolding updated_calculation
  leaf-Runs node fact c h = ground arith

  -- The items of a queue carry over where the statuses and values of their indices do.
  carry_items :
      (st st' : ℕ → Status) (v v' : ℕ → Option C) (bound i : ℕ) (q : List (NodeType N L))
      → ((x : NodeType N L) → x.index ≢ i → ItemOk ops st v bound x → ItemOk ops st' v' bound x)
      → elem i (indices q) ≡ false
      → All (ItemOk ops st v bound) q
      → All (ItemOk ops st' v' bound) q
  carry_items st st' v v' bound i [] carry fresh items = tt
  carry_items st st' v v' bound i (x ∷ q) carry fresh items = (
    carry x (ground arith) items.0,
    carry_items st st' v v' bound i q carry (ground arith) items.1,
  )

  -- An item that has been taken from the queue, and the rest.
  record Taken (st : ℕ → Status) (v : ℕ → Option C) (bound : ℕ) (x : NodeType N L)
      (rest : List (NodeType N L)) : Type 0 where
    item : ItemOk ops st v bound x
    items : All (ItemOk ops st v bound) rest
    listed : (j : ℕ) → is_queued (st j) ≡ (x.index == j || elem j (indices rest))
    fresh : elem x.index (indices rest) ≡ false
    distinct : Distinct (indices rest)

  take-Taken :
      (st : ℕ → Status) (v : ℕ → Option C) (bound n : ℕ) (x : NodeType N L)
      (q : List (NodeType N L))
      → QueueOk ops st v bound (x ∷ q)
      → Taken st v bound (take_item n x q).0 (take_item n x q).1
  take-Taken st v bound n x q h = record {
    item = (take_item-All (ItemOk ops st v bound) n x q h.items).0;
    items = (take_item-All (ItemOk ops st v bound) n x q h.items).1;
    listed = λ j. h.listed j ∙ take_item-elem j n x q;
    fresh = (take_item-Distinct n x q h.distinct).0;
    distinct = (take_item-Distinct n x q h.distinct).1;
  }

  module _ (st : ℕ → Status) (v : ℕ → Option C) (bound : ℕ) (d : Dict ℕ C) (root : C)
      (h : Consistent ops st v bound 0 d) (vr : v 1 ≡ some root) (x : NodeType N L)
      (rest : List (NodeType N L)) (t : Taken st v bound x rest) where
    -- A node whose value is known is stored, and the loop climbs as far as it can.
    store_visit :
        (c : C)
        → v x.index ≡ some c
        → (d' : Dict ℕ C) × (set_node ops x.index c d ≡ some d') × Good ops bound root rest d'
    unfolding set_node
    store_visit c vc =
        let up =
          update_necessary_lem ops (x.index + 1) x.index (set_at st x.index done) v bound
            (Dict.put d x.index c) (omega arith)
            (stored-Consistent ops st v bound d h x.index t.item.status c vc) (ground arith) in
        (
          up.dict,
          up.returns,
          record {
            status = up.status;
            ghost = v;
            consistent = up.consistent;
            queue = record {
              items =
                  carry_items st up.status v v bound x.index rest
                    (λ y ne ok. record {
                      status =
                          up.same_queue y.index
                          ∙ (let s = ok.status in ground (arith, eqb_iff x.index y.index));
                      value = ok.value;
                      runs = ok.runs;
                      ghost = ok.ghost;
                      fits = ok.fits;
                    })
                    t.fresh t.items;
              listed = λ j.
                  up.same_queue j
                  ∙ (let f = t.fresh in ground (arith, t.listed j, eqb_iff x.index j));
              distinct = t.distinct;
            };
            root = vr;
          },
        )

    -- A node with updates below it puts its two children on the queue.
    expand_visit :
        (l r : NodeType N L) (a b c : C)
        → l.index ≡ 2 * x.index
        → r.index ≡ 2 * x.index + 1
        → updated_calculation ops l.tree l.update ≡ some a
        → updated_calculation ops r.tree r.update ≡ some b
        → depth x.update ≡ suc (max (depth l.update) (depth r.update))
        → v x.index ≡ some c
        → ops.combine a b ≡ some c
        → Good ops bound root (l ∷ r ∷ rest) d
    expand_visit l r a b c el er ra rb dep vc comb =
        let i = x.index in
        let st' = expanded ops st v bound d h i t.item.status in
        let v' = valued ops st v bound d h i t.item.status a b in
        let pos = index_pos ops st v bound d h i t.item.status in
        let (il, ir) = children_idle ops st v bound d h i t.item.status in
        let fits : (i + 1) * 2 ^ suc (max (depth l.update) (depth r.update)) ≤ bound =
          rw (← dep) t.item.fits in
        record {
          status = st';
          ghost = v';
          consistent =
              expanded-Consistent ops st v bound d h i t.item.status a b c vc comb
                (fits_lt i (depth x.update) bound t.item.fits);
          queue = record {
            items = (
              record {
                status = rw el (ground arith);
                value = a;
                runs = ra;
                ghost = rw el (child_left ops st v bound d h i t.item.status a b);
                fits = rw el (
                    fits_left_mul i (2 ^ depth l.update) bound
                      (fits_child i (depth l.update) _ bound (omega arith) fits));
              },
              (
                record {
                  status = rw er (ground arith);
                  value = b;
                  runs = rb;
                  ghost = rw er (child_right ops st v bound d h i t.item.status a b);
                  fits = rw er (fits_child i (depth r.update) _ bound (omega arith) fits);
                },
                carry_items st st' v v' bound i rest
                    (λ y ne ok. record {
                      status = let s = ok.status in ground (arith, eqb_iff i y.index);
                      value = ok.value;
                      runs = ok.runs;
                      ghost =
                          valued_same ops st v bound d h i t.item.status a b y.index
                            (let s = ok.status in ground arith)
                          ∙ ok.ghost;
                      fits = ok.fits;
                    })
                    t.fresh t.items,
              ),
            );
            listed = λ j. let f = t.fresh in rw (el, er) (ground (arith, t.listed j));
            distinct = (
              subst (λ k. elem k (r.index ∷ indices rest) ≡ false) (sym el)
                  (subst (λ k. elem (2 * i) (k ∷ indices rest) ≡ false) (sym er)
                    (ground (arith, t.listed (2 * i)))),
              (
                subst (λ k. elem k (indices rest) ≡ false) (sym er)
                    (ground (arith, t.listed (2 * i + 1))),
                t.distinct,
              ),
            );
          };
          root =
              valued_same ops st v bound d h i t.item.status a b 1 (let r = h.root in ground arith)
              ∙ vr;
        }

    -- What a visit of the taken node gives: the children and the dictionary are good again, and one
    -- visit less is left.
    abbrev Visited : Option (List (NodeType N L) × Dict ℕ C) → Type 0
    Visited result =
        (children : List (NodeType N L)) × (d' : Dict ℕ C) × (result ≡ some (children, d'))
        × Good ops bound root (children ++ rest) d'
        × (total (children ++ rest) + 1 ≡ weight x.update + total rest)

    visit_node_lem :
        (u : UpdateTree L)
        → x.update ≡ u
        → updated_calculation ops x.tree u ≡ some t.item.value
        → Visited (visit_node ops x.index x.tree u d)
    unfolding visit_node
    visit_node_lem no_update e runs =
        let (d', s, g) = store_visit t.item.value t.item.ghost in
        let runs' : some (ops.create_from_node x.tree) ≡ some t.item.value =
          unfold updated_calculation in runs in
        let k : ops.create_from_node x.tree ≡ t.item.value = cc runs' in
        ([], d', rw (k, s), g, omega (arith, ap weight e))
    visit_node_lem (leaf fact) e runs =
        let (d', s, g) = store_visit t.item.value t.item.ghost in
        let (k, leaf_node) = leaf-Runs x.tree fact t.item.value runs in
        ([], d', rw (k, leaf_node, s), g, omega (arith, ap weight e))
    visit_node_lem (pair lu ru) e runs =
        let p = pair_runs x.tree lu ru t.item.value runs in
        let l : NodeType N L = record { index = 2 * x.index; tree = p.left; update = lu } in
        let r : NodeType N L = record { index = 2 * x.index + 1; tree = p.right; update = ru } in
        (
          l ∷ r ∷ [],
          d,
          rw (p.inner, p.children),
          expand_visit l r p.a p.b t.item.value refl refl p.left_runs p.right_runs (ap depth e)
              t.item.ghost p.combines,
          omega (arith, ap weight e),
        )

  -- One visit under any pick.
  visit_queue_lem :
      (bound : ℕ) (root : C) (pick : ℕ) (x : NodeType N L) (q : List (NodeType N L)) (d : Dict ℕ C)
      → Good ops bound root (x ∷ q) d
      → (p : Progress N C L) × (visit_queue ops pick (x ∷ q) d ≡ some p)
        × Good ops bound root p.queue p.updated_nodes
        × (total p.queue + 1 ≡ total (x ∷ q))
  unfolding visit_queue traverse_node
  visit_queue_lem bound root pick x q d g =
      let taken = take-Taken g.status g.ghost bound pick x q g.queue in
      let node = (take_item pick x q).0 in
      let rest = (take_item pick x q).1 in
      let (children, d', e, g', count) =
        visit_node_lem g.status g.ghost bound d root g.consistent g.root node rest taken node.update
          refl taken.item.runs in
      (
        record { queue = children ++ rest; updated_nodes = d' },
        rw e,
        g',
        omega (arith, count, take_item-total pick x q),
      )

  -- A schedule never fails, and every visit of it shortens the work.
  pub traverse_tree_lem :
      (bound : ℕ) (root : C) (schedule : List ℕ) (q : List (NodeType N L)) (d : Dict ℕ C)
      → Good ops bound root q d
      → (p : Progress N C L) × (traverse_tree ops schedule (record { queue = q; updated_nodes = d })
          ≡ some p)
        × Good ops bound root p.queue p.updated_nodes
        × (total p.queue ≡ total q - length schedule)
  unfolding traverse_tree visit_queue
  traverse_tree_lem bound root [] q d g =
      (record { queue = q; updated_nodes = d }, refl, g, omega arith)
  traverse_tree_lem bound root (pick ∷ schedule) [] d g =
      let (p, e, g', count) = traverse_tree_lem bound root schedule [] d g in
      (p, e, g', omega (arith, count))
  traverse_tree_lem bound root (pick ∷ schedule) (x ∷ q) d g =
      let (p1, e1, g1, count1) = visit_queue_lem bound root pick x q d g in
      let (p, e, g', count) = traverse_tree_lem bound root schedule p1.queue p1.updated_nodes g1 in
      (p, rw e1 e, g', omega (arith, count, count1))
