-- ===== src/Patricia/Calculation/Meaning.antt =====
-- What a hash calculation computes: its hash, the facts that it makes, and when those are stored.
use starkex_data_availabilit.Prelude.{
  ◌<◌, ◌≡◌, ◌≢◌, refl, sym, some, none, arith, false, List, [], ◌∷◌, ◌++◌, ◌==◌, ℕ_eq, List_eq,
}
use starkex_data_availabilit.Prelude.Dict
use starkex_data_availabilit.Bytes.{Bytes, IsHash}
use starkex_data_availabilit.Storage.{Db, get_or_fail}
use starkex_data_availabilit.Storage.Objects.{ReadsBack}
use starkex_data_availabilit.CommitmentTree.Leaf.{LeafClass}
use starkex_data_availabilit.Patricia.Nodes.{
  HashFunc, empty_node_hash, is_empty_hash, edge_fact, binary_fact, fact_hash,
}
use starkex_data_availabilit.Patricia.Nodes.RoundTrip.{
  is_empty_hash-false, make_binary_lem, make_edge_lem,
}
use starkex_data_availabilit.Patricia.Spec.{Edge, edge_hash, commitment, IsHashFunc, IsEdge}
use starkex_data_availabilit.Patricia.Spec.Bounds.{
  big_endian-IsHash, fact_hash-edge, commitment-nonempty,
}
use starkex_data_availabilit.Patricia.VirtualNode.{read_node_fact}
use starkex_data_availabilit.Patricia.Calculation.{
  HashCalculation, constant, leaf_fact, binary, edge, NodeFact, leaf, inner, NodeFactDict,
  is_empty_calculation, calculate, full_calculate,
}

-- The hash of a leaf, where it has one.
abbrev pub digest : {L : Type 0} → LeafClass L → L → Bytes
digest lc fact = elim (lc.hash fact) [ none ↦ empty_node_hash | some b ↦ b ]

-- A leaf hashes to 32 bytes, which are zero exactly for the empty leaf, and its class reads it
-- back.
pub record LeafOk {L : Type 0} (lc : LeafClass L) (fact : L) : Type 0 where
  pub hashes : lc.hash fact ≡ some (digest lc fact)
  pub hash : IsHash (digest lc fact)
  pub empty : lc.is_empty fact ≡ is_empty_hash (digest lc fact)
  pub reads_back : ReadsBack lc.cls fact

module _ {L : Type 0} (hash_func : HashFunc) (lc : LeafClass L) where
  abbrev pub calc_hash : HashCalculation L → Bytes
  calc_hash (constant value) = value
  calc_hash (leaf_fact fact) = digest lc fact
  calc_hash (binary l r) = hash_func (calc_hash l) (calc_hash r)
  calc_hash (edge b p n) =
      edge_hash hash_func (record { bottom = calc_hash b; path = p; length = n })

  -- The facts in the order in which they are made.
  abbrev pub calc_facts : HashCalculation L → List (Bytes × NodeFact L)
  calc_facts (constant value) = []
  calc_facts (leaf_fact fact) = (digest lc fact, leaf fact) ∷ []
  calc_facts (binary l r) =
      calc_facts l
      ++ (calc_facts r
          ++ ((calc_hash (binary l r), inner (binary_fact (calc_hash l) (calc_hash r))) ∷ []))
  calc_facts (edge b p n) =
      calc_facts b ++ ((calc_hash (edge b p n), inner (edge_fact (calc_hash b) p n)) ∷ [])

  -- The calculation passes the assertions of the facts that it makes.
  abbrev pub CalcOk : HashCalculation L → Type 0
  CalcOk (constant value) = IsHash value
  CalcOk (leaf_fact fact) = LeafOk lc fact
  CalcOk (binary l r) =
      CalcOk l × CalcOk r × (calc_hash l ≢ empty_node_hash) × (calc_hash r ≢ empty_node_hash)
  CalcOk (edge b p n) =
      CalcOk b × (0 < n) × IsEdge 255 (record { bottom = calc_hash b; path = p; length = n })

  -- The facts of the calculation are in the storage.
  abbrev pub AllStored : Db → HashCalculation L → Type 0
  AllStored db (constant value) = Unit
  AllStored db (leaf_fact fact) = get_or_fail lc.cls db (digest lc fact) ≡ some fact
  AllStored db (binary l r) =
      AllStored db l
      × AllStored db r
      × (read_node_fact db (calc_hash (binary l r))
          ≡ some (binary_fact (calc_hash l) (calc_hash r)))
  AllStored db (edge b p n) =
      AllStored db b
      × (read_node_fact db (calc_hash (edge b p n)) ≡ some (edge_fact (calc_hash b) p n))

pub update-append :
    {V : Type 0} (d : Dict.Dict Bytes V) (a b : List (Bytes × V))
    → Dict.update d (a ++ b) ≡ Dict.update (Dict.update d a) b
update-append d [] b = refl
update-append d ((k, v) ∷ a) b = update-append (Dict.put d k v) a b

module _ {L : Type 0} (hash_func : HashFunc) (good : IsHashFunc hash_func) (lc : LeafClass L) where
  pub calc_hash-IsHash :
      (c : HashCalculation L) → CalcOk hash_func lc c → IsHash (calc_hash hash_func lc c)
  unfolding edge_hash
  calc_hash-IsHash (constant value) h = h
  calc_hash-IsHash (leaf_fact fact) h = h.hash
  calc_hash-IsHash (binary l r) h = good.hash _ _ (calc_hash-IsHash l h.0) (calc_hash-IsHash r h.1)
  calc_hash-IsHash (edge b p n) h = big_endian-IsHash _

  commitment_of_edge : (e : Edge) → 0 < e.length → commitment hash_func e ≡ edge_hash hash_func e
  unfolding commitment
  commitment_of_edge e h = let z : (e.length == 0) ≡ false = ground arith in rw z

  -- The test of the code is the test on the hash.
  pub is_empty_calculation-eq :
      (c : HashCalculation L)
      → CalcOk hash_func lc c
      → is_empty_calculation lc c ≡ is_empty_hash (calc_hash hash_func lc c)
  unfolding is_empty_calculation
  is_empty_calculation-eq (constant value) h = refl
  is_empty_calculation-eq (leaf_fact fact) h = h.empty
  is_empty_calculation-eq (binary l r) h =
      sym
        (is_empty_hash-false _ (good.nonzero _ _ (calc_hash-IsHash l h.0) (calc_hash-IsHash r h.1)))
  is_empty_calculation-eq (edge b p n) h =
      let e : Edge = record { bottom = calc_hash hash_func lc b; path = p; length = n } in
      sym (
        is_empty_hash-false _ (
          rw (← commitment_of_edge e h.1) (
            commitment-nonempty hash_func good 255 e (omega arith) h.2
              (λ q. absurd (omega (arith, (h.2.empty q).1))))))

  calculate_binary :
      (l r : HashCalculation L) (a b : Bytes) (d : NodeFactDict L)
      → a ≢ empty_node_hash
      → b ≢ empty_node_hash
      → calculate hash_func lc (binary l r) (a ∷ b ∷ []) d
        ≡ some (hash_func a b, Dict.put d (hash_func a b) (inner (binary_fact a b)))
  unfolding calculate fact_hash
  calculate_binary l r a b d na nb = rw (make_binary_lem a b na nb)

  calculate_edge :
      (c : HashCalculation L) (e : Edge) (d : NodeFactDict L)
      → 0 < e.length
      → IsEdge 255 e
      → calculate hash_func lc (edge c e.path e.length) (e.bottom ∷ []) d
        ≡ some (
          edge_hash hash_func e,
          Dict.put d (edge_hash hash_func e) (inner (edge_fact e.bottom e.path e.length)),
        )
  unfolding calculate
  calculate_edge c e d pos w = rw (
    make_edge_lem e.bottom e.path e.length pos w.path,
    fact_hash-edge hash_func good 255 e (omega arith) w,
  )

  -- `full_calculate` of a calculation that passes its assertions gives the hash, and adds its facts
  -- to the dictionary.
  pub full_calculate_lem :
      (c : HashCalculation L) (d : NodeFactDict L)
      → CalcOk hash_func lc c
      → full_calculate hash_func lc c d
        ≡ some (calc_hash hash_func lc c, Dict.update d (calc_facts hash_func lc c))
  unfolding full_calculate
  full_calculate_lem (constant value) d h = refl
  full_calculate_lem (leaf_fact fact) d h = rw (h.hashes)
  full_calculate_lem (binary l r) d h =
      let fl = calc_facts hash_func lc l in
      let fr = calc_facts hash_func lc r in
      rw (
        full_calculate_lem l d h.0,
        full_calculate_lem r (Dict.update d fl) h.1,
        calculate_binary l r _ _ (Dict.update (Dict.update d fl) fr) h.2 h.3,
        update-append d fl (fr ++ (_ ∷ [])),
        update-append (Dict.update d fl) fr (_ ∷ []),
      )
  full_calculate_lem (edge b p n) d h =
      let e : Edge = record { bottom = calc_hash hash_func lc b; path = p; length = n } in
      let fb = calc_facts hash_func lc b in
      rw (
        full_calculate_lem b d h.0,
        calculate_edge b e (Dict.update d fb) h.1 h.2,
        update-append d fb (_ ∷ []),
      )
