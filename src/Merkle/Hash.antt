-- ===== src/Merkle/Hash.antt =====
-- The root of a full tree of leaf hashes, the facts that a storage holds of it, and what a hash
-- calculation computes.
use starkex_data_availabilit.Prelude.{
  ℕ, zero, suc, ◌^◌, lt→ltb, subst, ◌<◌, ◌≡◌, refl, sym, ap, ◌∙◌, some, arith, List, [], ◌∷◌, ◌++◌,
  length, length-append, take-append_of_len, drop-append_of_len, List_eq, ℕ_eq,
}
use starkex_data_availabilit.Prelude.Dict
use starkex_data_availabilit.Bytes.{Bytes, IsHash, to_bytes, to_bytes_len, from_bytes, big_endian}
use starkex_data_availabilit.Bytes.RoundTrip.{from_bytes-lt, big_endian-from_bytes}
use starkex_data_availabilit.Storage.{Db, get_or_fail}
use starkex_data_availabilit.Storage.Objects.{ReadsBack}
use starkex_data_availabilit.CommitmentTree.Leaf.{LeafClass}
use starkex_data_availabilit.Patricia.Nodes.{HashFunc}
use starkex_data_availabilit.Patricia.Spec.{Tree}
use starkex_data_availabilit.Patricia.Calculation.Meaning.{digest, update-append}
use starkex_data_availabilit.Merkle.{
  make_fact, to_tuple, serialize, deserialize, merkle_class, HashCalculation, constant, leaf_fact,
  binary, NodeFact, leaf, inner, NodeFactDict, full_calculate,
}

-- On hashes the hash function gives hashes.
abbrev pub GivesHashes : HashFunc → Type 0
GivesHashes hash_func = (x y : Bytes) → IsHash x → IsHash y → IsHash (hash_func x y)

to_bytes-hash : (b : Bytes) → IsHash b → to_bytes (from_bytes b) ≡ some b
unfolding to_bytes to_bytes_len
to_bytes-hash b w =
    let fits : from_bytes b < 256 ^ 32 =
      subst (λ n. from_bytes b < 256 ^ n) w.size (from_bytes-lt b w.bytes) in
    rw (lt→ltb (from_bytes b) (256 ^ 32) fits) (
      ap some
        (ap (λ n. big_endian n (from_bytes b)) (sym w.size) ∙ big_endian-from_bytes b w.bytes))

-- A node fact of two hashes is read back.
pub MerkleNodeFact-ReadsBack :
    (l r : Bytes) → IsHash l → IsHash r → ReadsBack merkle_class (make_fact l r)
unfolding serialize to_tuple deserialize
MerkleNodeFact-ReadsBack l r wl wr = (
  l ++ r,
  rw (to_bytes-hash l wl, to_bytes-hash r wr),
  rw (both_len, take-append_of_len 32 l r wl.size, drop-append_of_len 32 l r wl.size),
)
  where
    both_len : length (l ++ r) ≡ 64
    both_len = omega (arith, length-append l r, wl.size, wr.size)

module _ (hash_func : HashFunc) where
  -- The Merkle root of a tree.
  abbrev pub merkle_root : (h : ℕ) → Tree h → Bytes
  merkle_root zero b = b
  merkle_root (suc h) t = hash_func (merkle_root h t.0) (merkle_root h t.1)

  -- The storage holds the fact of each node of the tree, and of each leaf.
  abbrev pub TreeFacts : {L : Type 0} → LeafClass L → Db → (h : ℕ) → Tree h → Type 0
  TreeFacts {L} lc db zero b = (f : L) × (get_or_fail lc.cls db b ≡ some f)
  TreeFacts lc db (suc h) t =
      TreeFacts lc db h t.0
      × TreeFacts lc db h t.1
      × (get_or_fail merkle_class db (merkle_root (suc h) t)
          ≡ some (make_fact (merkle_root h t.0) (merkle_root h t.1)))

-- A leaf hashes to 32 bytes, and its class reads it back.
pub record LeafHashes {L : Type 0} (lc : LeafClass L) (fact : L) : Type 0 where
  pub hashes : lc.hash fact ≡ some (digest lc fact)
  pub hash : IsHash (digest lc fact)
  pub reads_back : ReadsBack lc.cls fact

module _ {L : Type 0} (hash_func : HashFunc) (lc : LeafClass L) where
  abbrev pub calc_hash : HashCalculation L → Bytes
  calc_hash (constant value) = value
  calc_hash (leaf_fact fact) = digest lc fact
  calc_hash (binary l r) = hash_func (calc_hash l) (calc_hash r)

  -- The facts in the order in which they are made.
  abbrev pub calc_facts : HashCalculation L → List (Bytes × NodeFact L)
  calc_facts (constant value) = []
  calc_facts (leaf_fact fact) = (digest lc fact, leaf fact) ∷ []
  calc_facts (binary l r) =
      calc_facts l
      ++ (calc_facts r
          ++ ((calc_hash (binary l r), inner (make_fact (calc_hash l) (calc_hash r))) ∷ []))

  abbrev pub CalcOk : HashCalculation L → Type 0
  CalcOk (constant value) = IsHash value
  CalcOk (leaf_fact fact) = LeafHashes lc fact
  CalcOk (binary l r) = CalcOk l × CalcOk r

  pub calc_hash-IsHash :
      GivesHashes hash_func → (c : HashCalculation L) → CalcOk c → IsHash (calc_hash c)
  calc_hash-IsHash good (constant value) ok = ok
  calc_hash-IsHash good (leaf_fact fact) ok = ok.hash
  calc_hash-IsHash good (binary l r) ok =
      good _ _ (calc_hash-IsHash good l ok.0) (calc_hash-IsHash good r ok.1)

  pub full_calculate_lem :
      (c : HashCalculation L) (d : NodeFactDict L)
      → CalcOk c
      → full_calculate hash_func lc c d ≡ some (calc_hash c, Dict.update d (calc_facts c))
  unfolding full_calculate
  full_calculate_lem (constant value) d ok = refl
  full_calculate_lem (leaf_fact fact) d ok = rw (ok.hashes)
  full_calculate_lem (binary l r) d ok = rw (
    full_calculate_lem l d ok.0,
    full_calculate_lem r (Dict.update d (calc_facts l)) ok.1,
    update-append d (calc_facts l) (calc_facts r ++ (_ ∷ [])),
    update-append (Dict.update d (calc_facts l)) (calc_facts r) (_ ∷ []),
  )
