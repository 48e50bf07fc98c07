-- ===== src/Patricia/Calculation/Combine.antt =====
-- `combine` of nodes that stand for two subtrees stands for their parent.
use starkex_data_availabilit.Prelude.{
  ℕ, zero, suc, ◌+◌, ◌^◌, ◌<◌, ◌≡◌, ◌≢◌, inl, inr, refl, sym, ap, ◌∙◌, some, arith, true, false,
  lt→ltb, Bool-cases, ◌==◌, ℕ_eq, eqb_iff, subst,
}
use starkex_data_availabilit.Bytes.{Bytes}
use starkex_data_availabilit.Storage.{Db}
use starkex_data_availabilit.CommitmentTree.Leaf.{LeafClass}
use starkex_data_availabilit.Patricia.Nodes.{HashFunc, empty_node_hash, is_empty_hash}
use starkex_data_availabilit.Patricia.Nodes.RoundTrip.{is_empty_hash-empty, is_empty_hash-false}
use starkex_data_availabilit.Patricia.Spec.{
  Tree, Edge, no_edge, commitment, virtual, IsTree, IsHashFunc, IsEdge,
}
use starkex_data_availabilit.Patricia.Spec.Bounds.{
  children_nonzero, commitment-IsHash, commitment-nonempty, virtual-IsEdge, JoinCases, both_empty,
  only_right, only_left, both, join-cases, join-empty, up_left, up_right, shift_lt,
  empty_node_hash-IsHash,
}
use starkex_data_availabilit.Patricia.VirtualNode.Represents.{EdgeStored, Stored}
use starkex_data_availabilit.Patricia.Calculation.{
  HashCalculation, constant, leaf_fact, binary, edge, VirtualCalculationNode, make_calc, empty_node,
  commit, is_empty, combine_to_binary_node, decommit, combine,
}
use starkex_data_availabilit.Patricia.Calculation.Meaning.{calc_hash, CalcOk, AllStored}
use starkex_data_availabilit.Patricia.Calculation.Decommit.{
  Extends, triple, IsBottom, Canonical, Committed, Builds, CalcRepresents, is_empty-triple,
  decommit_lem,
}

-- An edge within the bounds of a height below 256.
IsEdge-255 : (h : ℕ) (e : Edge) → h < 256 → IsEdge h e → IsEdge 255 e
IsEdge-255 h e small w = record {
  hash = w.hash;
  path = w.path;
  length = omega (arith, w.length);
  empty = w.empty;
}

module _ {L : Type 0} (hash_func : HashFunc) (good : IsHashFunc hash_func) (lc : LeafClass L)
    (db : Db) where
  -- The facts below an empty tree are none.
  empty-Stored :
      (db' : Db) (h : ℕ) (t : Tree h)
      → (virtual hash_func h t).bottom ≡ empty_node_hash
      → IsTree h t
      → Stored hash_func db' h t
  unfolding virtual
  empty-Stored db' zero t p w = tt
  empty-Stored db' (suc h) t p w =
      let l = virtual hash_func h t.0 in
      let r = virtual hash_func h t.1 in
      let (pl, pr) =
        join-empty hash_func l r _ (children_nonzero hash_func good h t w)
          (join-cases hash_func l r) p in
      (empty-Stored db' h t.0 pl w.0, empty-Stored db' h t.1 pr w.1, λ nl. absurd (nl pl))

  pub height_of :
      (h : ℕ) (t : Tree h) (c : VirtualCalculationNode L)
      → CalcRepresents hash_func lc db h t c
      → c.height ≡ h
  height_of h t c rep = elim rep.shape [ inl can ↦ can.height | inr comm ↦ comm.height ]

  -- The committed form of a node: its hash is the subtree's, and its facts hold the edge's fact.
  pub record Commits (h : ℕ) (e : Edge) (c : VirtualCalculationNode L) : Type 0 where
    pub hash : calc_hash hash_func lc (commit c) ≡ commitment hash_func e
    pub ok : CalcOk hash_func lc (commit c)
    pub stored :
        (db' : Db)
        → Extends db db'
        → AllStored hash_func lc db' (commit c)
        → AllStored hash_func lc db' c.bottom_calculation × EdgeStored hash_func db' e

  commit_plain :
      (h : ℕ) (c : VirtualCalculationNode L)
      → CalcOk hash_func lc c.bottom_calculation
      → c.length ≡ 0
      → Commits h (triple hash_func lc c) c
  unfolding commit commitment
  commit_plain h c ok z = record {
    hash = rw z;
    ok = rw z ok;
    stored = λ db' ext st. (rw z at st, λ pos. absurd (omega arith));
  }

  commit_edge :
      (h : ℕ) (c : VirtualCalculationNode L)
      → h < 256
      → IsEdge h (triple hash_func lc c)
      → CalcOk hash_func lc c.bottom_calculation
      → (c.length == 0) ≡ false
      → Commits h (triple hash_func lc c) c
  unfolding commit commitment
  commit_edge h c small w ok z = record {
    hash = rw z;
    ok = rw z (ok, nonzero c.length z, IsEdge-255 h _ small w);
    stored = λ db' ext st. let (sb, se) = rw z at st in (sb, λ pos. rw z se);
  }
    where
      nonzero : (n : ℕ) → (n == 0) ≡ false → 0 < n
      nonzero n e = ground arith

  commit-Committed :
      (h : ℕ) (e : Edge) (c : VirtualCalculationNode L)
      → IsEdge h e
      → Committed hash_func lc db h e c
      → Commits h e c
  unfolding commit
  commit-Committed h e c w comm = record {
    hash = rw (comm.length, comm.bottom);
    ok = rw (comm.length, comm.bottom) (commitment-IsHash hash_func good h e w);
    stored = λ db' ext st. (rw comm.length at st, λ pos. ext _ _ (comm.stored pos));
  }

  pub commit_lem :
      (h : ℕ) (t : Tree h) (c : VirtualCalculationNode L)
      → h < 256
      → IsTree h t
      → CalcRepresents hash_func lc db h t c
      → Commits h (virtual hash_func h t) c
  commit_lem h t c small w rep = elim rep.shape [
    | inl can ↦
        let we = subst (IsEdge h) (sym can.triple_eq) (virtual-IsEdge hash_func good h t w) in
        subst (λ e. Commits h e c) can.triple_eq
          (elim (Bool-cases (c.length == 0)) [
            | inl z ↦ commit_plain h c rep.builds.ok ((eqb_iff c.length 0).0 z)
            | inr z ↦ commit_edge h c small we rep.builds.ok z
          ])
    | inr comm ↦ commit-Committed h _ c (virtual-IsEdge hash_func good h t w) comm
  ]

  IsBottom-up :
      (h n m : ℕ) (b : HashCalculation L)
      → IsBottom hash_func lc db h n b
      → IsBottom hash_func lc db (suc h) (m + 1) b
  IsBottom-up h n m (constant value) isb = λ pos len ne. absurd (omega arith)
  IsBottom-up h n m (leaf_fact fact) isb = tt
  IsBottom-up h n m (binary l r) isb = tt
  IsBottom-up h n m (edge b p k) isb = isb

  -- The bounds of a node in canonical form.
  Canonical-path :
      (h : ℕ) (t : Tree h) (c : VirtualCalculationNode L)
      → IsTree h t
      → Canonical hash_func lc db h (virtual hash_func h t) c
      → c.path < 2 ^ c.length
  Canonical-path h t c w can =
      (subst (IsEdge h) (sym can.triple_eq) (virtual-IsEdge hash_func good h t w)).path

  same_height : (h m n : ℕ) → m ≡ h → n ≡ h → (n == m) ≡ true
  same_height h m n p q = ground arith

  module _ (h : ℕ) (t : Tree (suc h)) (l r : VirtualCalculationNode L) (small : suc h < 256)
      (w : IsTree (suc h) t) (rl : CalcRepresents hash_func lc db h t.0 l)
      (rr : CalcRepresents hash_func lc db h t.1 r) where
    abbrev Combined : Edge → Type 0
    Combined e =
        (c : VirtualCalculationNode L) × (combine lc db l r ≡ some c)
        × Canonical hash_func lc db (suc h) e c
        × Builds hash_func lc db (suc h) t c

    el : Edge
    el = virtual hash_func h t.0

    heights : (r.height == l.height) ≡ true
    heights = same_height h l.height r.height (height_of h t.0 l rl) (height_of h t.1 r rr)

    left_empty : is_empty lc l ≡ is_empty_hash (virtual hash_func h t.0).bottom
    left_empty =
        is_empty-triple hash_func good lc db h _ l (omega arith)
          (virtual-IsEdge hash_func good h t.0 w.0) rl.builds.ok rl.shape

    right_empty : is_empty lc r ≡ is_empty_hash (virtual hash_func h t.1).bottom
    right_empty =
        is_empty-triple hash_func good lc db h _ r (omega arith)
          (virtual-IsEdge hash_func good h t.1 w.1) rr.builds.ok rr.shape

    empty_test : (b : Bytes) → b ≡ empty_node_hash → is_empty_hash b ≡ true
    empty_test b p = rw p is_empty_hash-empty

    combine_both_empty :
        (virtual hash_func h t.0).bottom ≡ empty_node_hash
        → (virtual hash_func h t.1).bottom ≡ empty_node_hash
        → Combined (no_edge empty_node_hash)
    unfolding combine
    combine_both_empty pl pr = (
      empty_node (r.height + 1),
      rw (heights, left_empty, right_empty, empty_test _ pl, empty_test _ pr),
      record {
        height = omega (arith, height_of h t.1 r rr);
        triple_eq = refl;
        bottom = λ pos len ne. absurd (ne refl);
      },
      record {
        ok = empty_node_hash-IsHash;
        stores = λ db' ext st.
            (empty-Stored db' h t.0 pl w.0, empty-Stored db' h t.1 pr w.1, λ nl. absurd (nl pl));
      },
    )

    combine_both :
        (virtual hash_func h t.0).bottom ≢ empty_node_hash
        → (virtual hash_func h t.1).bottom ≢ empty_node_hash
        → Combined (
            no_edge (
              hash_func
                (commitment hash_func (virtual hash_func h t.0))
                (commitment hash_func (virtual hash_func h t.1))))
    unfolding combine
    combine_both nl nr =
        let cl = commit_lem h t.0 l (omega arith) w.0 rl in
        let cr = commit_lem h t.1 r (omega arith) w.1 rr in
        let wl = virtual-IsEdge hash_func good h t.0 w.0 in
        let wr = virtual-IsEdge hash_func good h t.1 w.1 in
        (
          combine_to_binary_node l r,
          rw (heights, left_empty, right_empty, is_empty_hash-false _ nl, is_empty_hash-false _ nr),
          record {
            height = omega (arith, height_of h t.1 r rr);
            triple_eq = λ i. no_edge (hash_func (cl.hash i) (cr.hash i));
            bottom = tt;
          },
          record {
            ok = (
              cl.ok,
              cr.ok,
              rw cl.hash (commitment-nonempty hash_func good h _ (omega arith) wl nl),
              rw cr.hash (commitment-nonempty hash_func good h _ (omega arith) wr nr),
            );
            stores = λ db' ext st.
                let (bl, sl) = cl.stored db' ext st.0 in
                let (br, sr) = cr.stored db' ext st.1 in
                (
                  rl.builds.stores db' ext bl,
                  rr.builds.stores db' ext br,
                  λ _ _. (rw (cl.hash, cr.hash) at st.2, sl, sr),
                );
          },
        )

    combine_right_lem :
        (c : VirtualCalculationNode L)
        → (virtual hash_func h t.0).bottom ≡ empty_node_hash
        → (virtual hash_func h t.1).bottom ≢ empty_node_hash
        → decommit lc db r ≡ some c
        → combine lc db l r
          ≡ make_calc c.bottom_calculation (c.path + 2 ^ c.length) (c.length + 1) (c.height + 1)
    unfolding combine
    combine_right_lem c pl nr d =
        rw (heights, left_empty, right_empty, empty_test _ pl, is_empty_hash-false _ nr, d)

    combine_left_lem :
        (c : VirtualCalculationNode L)
        → (virtual hash_func h t.0).bottom ≢ empty_node_hash
        → (virtual hash_func h t.1).bottom ≡ empty_node_hash
        → decommit lc db l ≡ some c
        → combine lc db l r ≡ make_calc c.bottom_calculation c.path (c.length + 1) (c.height + 1)
    unfolding combine
    combine_left_lem c nl pr d =
        rw (heights, left_empty, right_empty, empty_test _ pr, is_empty_hash-false _ nl, d)

    combine_right :
        (virtual hash_func h t.0).bottom ≡ empty_node_hash
        → (virtual hash_func h t.1).bottom ≢ empty_node_hash
        → Combined (up_right (virtual hash_func h t.1))
    unfolding make_calc
    combine_right pl nr =
        let (c, d, can, b) =
          decommit_lem hash_func good lc db h t.1 r w.1 (right_empty ∙ is_empty_hash-false _ nr)
            rr in
        (
          record {
            bottom_calculation = c.bottom_calculation;
            path = c.path + 2 ^ c.length;
            length = c.length + 1;
            height = c.height + 1;
          },
          combine_right_lem c pl nr d
              ∙ rw (lt→ltb _ _ (shift_lt c.path c.length (Canonical-path h t.1 c w.1 can)).1),
          record {
            height = omega (arith, can.height);
            triple_eq = ap up_right can.triple_eq;
            bottom = IsBottom-up h c.length c.length c.bottom_calculation can.bottom;
          },
          record {
            ok = b.ok;
            stores = λ db' ext st.
                (empty-Stored db' h t.0 pl w.0, b.stores db' ext st, λ nl. absurd (nl pl));
          },
        )

    combine_left :
        (virtual hash_func h t.0).bottom ≢ empty_node_hash
        → (virtual hash_func h t.1).bottom ≡ empty_node_hash
        → Combined (up_left (virtual hash_func h t.0))
    unfolding make_calc
    combine_left nl pr =
        let (c, d, can, b) =
          decommit_lem hash_func good lc db h t.0 l w.0 (left_empty ∙ is_empty_hash-false _ nl)
            rl in
        (
          record {
            bottom_calculation = c.bottom_calculation;
            path = c.path;
            length = c.length + 1;
            height = c.height + 1;
          },
          combine_left_lem c nl pr d
              ∙ rw (lt→ltb _ _ (shift_lt c.path c.length (Canonical-path h t.0 c w.0 can)).0),
          record {
            height = omega (arith, can.height);
            triple_eq = ap up_left can.triple_eq;
            bottom = IsBottom-up h c.length c.length c.bottom_calculation can.bottom;
          },
          record {
            ok = b.ok;
            stores = λ db' ext st.
                (b.stores db' ext st, empty-Stored db' h t.1 pr w.1, λ _ nr. absurd (nr pr));
          },
        )

    Combined-by_cases :
        (j : Edge)
        → JoinCases hash_func (virtual hash_func h t.0) (virtual hash_func h t.1) j
        → Combined j
    Combined-by_cases j (both_empty pl pr pj) = subst Combined (sym pj) (combine_both_empty pl pr)
    Combined-by_cases j (only_right pl nr pj) = subst Combined (sym pj) (combine_right pl nr)
    Combined-by_cases j (only_left nl pr pj) = subst Combined (sym pj) (combine_left nl pr)
    Combined-by_cases j (both nl nr pj) = subst Combined (sym pj) (combine_both nl nr)

    -- `combine` of calculation nodes that stand for two subtrees of one height, below 255, succeeds,
    -- and its result stands for the tree above them.
    pub combine-CalcRepresents :
        (c : VirtualCalculationNode L) × (combine lc db l r ≡ some c)
        × CalcRepresents hash_func lc db (suc h) t c
    unfolding virtual
    combine-CalcRepresents =
        let (c, e, can, b) =
          Combined-by_cases _
            (join-cases hash_func (virtual hash_func h t.0) (virtual hash_func h t.1)) in
        (c, e, record { shape = inl can; builds = b })
