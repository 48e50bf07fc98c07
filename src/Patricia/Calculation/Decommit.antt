-- ===== src/Patricia/Calculation/Decommit.antt =====
-- When a calculation node stands for a tree, and `_decommit` to its triple.
use starkex_data_availabilit.Prelude.{
  ℕ, ◌^◌, ◌<◌, ◌≤◌, ◌≡◌, ◌≢◌, ◌⊎◌, inl, inr, refl, sym, ap, ◌∙◌, some, arith, true, false, lt→ltb,
  Bool-cases, ◌==◌, ℕ_eq,
}
use starkex_data_availabilit.Bytes.{Bytes}
use starkex_data_availabilit.Storage.{Db}
use starkex_data_availabilit.CommitmentTree.Leaf.{LeafClass}
use starkex_data_availabilit.Patricia.Nodes.{
  HashFunc, PatriciaNodeFact, empty_node_hash, is_empty_hash, binary_fact,
}
use starkex_data_availabilit.Patricia.Nodes.RoundTrip.{is_empty_hash-false, ne_of_is_empty_hash}
use starkex_data_availabilit.Patricia.Spec.{
  Tree, Edge, commitment, virtual, IsTree, IsHashFunc, IsEdge,
}
use starkex_data_availabilit.Patricia.Spec.Bounds.{commitment-nonempty, virtual-IsEdge}
use starkex_data_availabilit.Patricia.VirtualNode.{read_node_fact}
use starkex_data_availabilit.Patricia.VirtualNode.Represents.{EdgeStored, Stored}
use starkex_data_availabilit.Patricia.Calculation.{
  HashCalculation, constant, leaf_fact, binary, edge, VirtualCalculationNode, make_calc, is_empty,
  is_empty_calculation, decommit_fact, decommit_bottom, decommit,
}
use starkex_data_availabilit.Patricia.Calculation.Meaning.{
  calc_hash, CalcOk, AllStored, is_empty_calculation-eq,
}

-- Every node fact that one storage holds the other holds too.
abbrev pub Extends : Db → Db → Type 0
Extends db db' =
    (k : Bytes) (f : PatriciaNodeFact)
    → read_node_fact db k ≡ some f
    → read_node_fact db' k ≡ some f

module _ {L : Type 0} (hash_func : HashFunc) (lc : LeafClass L) where
  abbrev pub triple : VirtualCalculationNode L → Edge
  triple c = record {
    bottom = calc_hash hash_func lc c.bottom_calculation;
    path = c.path;
    length = c.length;
  }

module _ {L : Type 0} (hash_func : HashFunc) (lc : LeafClass L) (db : Db) where
  -- A bottom that is a constant above the leaves, with no virtual edge over it, is a stored binary
  -- node; an edge calculation stands under a binary one only.
  abbrev pub IsBottom : ℕ → ℕ → HashCalculation L → Type 0
  IsBottom h len (constant value) =
      0 < h
      → len ≡ 0
      → value ≢ empty_node_hash
      → (l r : Bytes) × (read_node_fact db value ≡ some (binary_fact l r))
  IsBottom h len (leaf_fact fact) = Unit
  IsBottom h len (binary l r) = Unit
  IsBottom h len (edge b p n) = ⊥

  -- The node is the triple of the tree, spelled out.
  pub record Canonical (h : ℕ) (e : Edge) (c : VirtualCalculationNode L) : Type 0 where
    pub height : c.height ≡ h
    pub triple_eq : triple hash_func lc c ≡ e
    pub bottom : IsBottom h c.length c.bottom_calculation

  -- The node is the hash of an edge that is in the storage.
  pub record Committed (h : ℕ) (e : Edge) (c : VirtualCalculationNode L) : Type 0 where
    pub height : c.height ≡ h
    pub bottom : c.bottom_calculation ≡ constant (commitment hash_func e)
    pub length : c.length ≡ 0
    pub path : c.path ≡ 0
    pub above : 0 < e.length
    pub stored : EdgeStored hash_func db e

  -- The calculation passes its assertions, and once its facts are stored, so are the tree's.
  pub record Builds (h : ℕ) (t : Tree h) (c : VirtualCalculationNode L) : Type 0 where
    pub ok : CalcOk hash_func lc c.bottom_calculation
    pub stores :
        (db' : Db)
        → Extends db db'
        → AllStored hash_func lc db' c.bottom_calculation
        → Stored hash_func db' h t

  pub record CalcRepresents (h : ℕ) (t : Tree h) (c : VirtualCalculationNode L) : Type 0 where
    pub shape : Canonical h (virtual hash_func h t) c ⊎ Committed h (virtual hash_func h t) c
    pub builds : Builds h t c

module _ {L : Type 0} (hash_func : HashFunc) (good : IsHashFunc hash_func) (lc : LeafClass L)
    (db : Db) where
  -- The node is empty exactly when the tree is.
  pub is_empty-triple :
      (h : ℕ) (e : Edge) (c : VirtualCalculationNode L)
      → h < 256
      → IsEdge h e
      → CalcOk hash_func lc c.bottom_calculation
      → Canonical hash_func lc db h e c ⊎ Committed hash_func lc db h e c
      → is_empty lc c ≡ is_empty_hash e.bottom
  is_empty-triple h e c small w ok (inl can) =
      is_empty_calculation-eq hash_func good lc c.bottom_calculation ok
      ∙ ap (λ (x : Edge). is_empty_hash x.bottom) can.triple_eq
  is_empty-triple h e c small w ok (inr comm) =
      is_empty_calculation-eq hash_func good lc c.bottom_calculation ok
      ∙ ap (λ x. is_empty_hash (calc_hash hash_func lc x)) comm.bottom
      ∙ committed_empty h e small w comm.above
    where
      committed_empty :
          (h : ℕ) (e : Edge)
          → h < 256
          → IsEdge h e
          → 0 < e.length
          → is_empty_hash (commitment hash_func e) ≡ is_empty_hash e.bottom
      committed_empty h e small w above =
          let ne : e.bottom ≢ empty_node_hash = λ p. absurd (omega (arith, (w.empty p).1)) in
          is_empty_hash-false _ (commitment-nonempty hash_func good h e small w ne)
          ∙ sym (is_empty_hash-false _ ne)

  -- `decommit_bottom` of a bottom that is no committed edge leaves the node alone.
  decommit_canonical :
      (h : ℕ) (c : VirtualCalculationNode L) (b : HashCalculation L)
      → 0 < h
      → c.length ≡ 0
      → is_empty_calculation lc b ≡ false
      → IsBottom hash_func lc db h c.length b
      → decommit_bottom db c b ≡ some c
  unfolding decommit_bottom is_empty_calculation
  decommit_canonical h c (constant value) pos len ne isb =
      let (l, r, e) = isb pos len (ne_of_is_empty_hash value ne) in rw e
  decommit_canonical h c (leaf_fact fact) pos len ne isb = refl
  decommit_canonical h c (binary l r) pos len ne isb = refl
  decommit_canonical h c (edge b p n) pos len ne isb = absurd isb

  decommit_stays :
      (h : ℕ) (e : Edge) (c : VirtualCalculationNode L)
      → is_empty lc c ≡ false
      → Canonical hash_func lc db h e c
      → decommit lc db c ≡ some c
  unfolding decommit
  decommit_stays h e c ne can = elim (Bool-cases (c.height == 0)) [
    | inl leaf ↦ rw (leaf)
    | inr above ↦ elim (Bool-cases (c.length == 0)) [
      | inl plain ↦
          rw (above, ne, plain)
            (decommit_canonical h c c.bottom_calculation (positive h c.height can.height above)
              (zero_length c.length plain) ne can.bottom)
      | inr long ↦ rw (above, ne, long)
    ]
  ]
    where
      positive : (h n : ℕ) → n ≡ h → (n == 0) ≡ false → 0 < h
      positive h n e z = ground arith

      zero_length : (n : ℕ) → (n == 0) ≡ true → n ≡ 0
      zero_length n z = ground arith

  -- A committed edge is read back from its fact.
  decommit_edge :
      (h : ℕ) (e : Edge) (c : VirtualCalculationNode L)
      → IsEdge h e
      → is_empty lc c ≡ false
      → Committed hash_func lc db h e c
      → decommit lc db c
        ≡ some (record {
          bottom_calculation = constant e.bottom;
          path = e.path;
          length = e.length;
          height = c.height;
        })
  unfolding decommit decommit_bottom decommit_fact make_calc
  decommit_edge h e c w ne comm =
      let above : (c.height == 0) ≡ false =
        above_leaves h e.length c.height w.length comm.above comm.height in
      rw (
        above,
        ne,
        comm.length,
        comm.bottom,
        comm.stored comm.above,
        lt→ltb e.path (2 ^ e.length) w.path,
      )
    where
      above_leaves : (h n k : ℕ) → n ≤ h → 0 < n → k ≡ h → (k == 0) ≡ false
      above_leaves h n k le pos e = ground arith

  -- `_decommit` of a non-empty node gives the triple.
  pub decommit_lem :
      (h : ℕ) (t : Tree h) (c : VirtualCalculationNode L)
      → IsTree h t
      → is_empty lc c ≡ false
      → CalcRepresents hash_func lc db h t c
      → (c' : VirtualCalculationNode L) × (decommit lc db c ≡ some c')
        × Canonical hash_func lc db h (virtual hash_func h t) c'
        × Builds hash_func lc db h t c'
  decommit_lem h t c w ne rep = elim rep.shape [
    | inl can ↦ (c, decommit_stays h _ c ne can, can, rep.builds)
    | inr comm ↦
        let e = virtual hash_func h t in
        (
          record {
            bottom_calculation = constant e.bottom;
            path = e.path;
            length = e.length;
            height = c.height;
          },
          decommit_edge h e c (virtual-IsEdge hash_func good h t w) ne comm,
          record {
            height = comm.height;
            triple_eq = refl;
            bottom = λ pos len nz. absurd (omega (arith, comm.above));
          },
          record {
            ok = (virtual-IsEdge hash_func good h t w).hash;
            stores = λ db' ext st. rep.builds.stores db' ext (rw comm.bottom tt);
          },
        )
  ]
