-- ===== src/Patricia/Tree/Facts.antt =====
-- The facts of a calculation: each is read back after it is written, and together they store it.
use starkex_data_availabilit.Prelude.{
  ◌≡◌, inl, inr, refl, some, arith, List, map, List_eq, ℕ_eq, subst,
}
use starkex_data_availabilit.Prelude.Dict.{Dict}
use starkex_data_availabilit.Prelude.Dict
use starkex_data_availabilit.Prelude.Dict.Writes.{
  Listed, NoClash, get-update_new, Listed-left, Listed-right, Listed-append,
}
use starkex_data_availabilit.Bytes.{Bytes}
use starkex_data_availabilit.Storage.{Db, get_or_fail}
use starkex_data_availabilit.CommitmentTree.Leaf.{LeafClass}
use starkex_data_availabilit.Patricia.Nodes.{HashFunc, edge_fact, binary_fact}
use starkex_data_availabilit.Patricia.Nodes.RoundTrip.{PatriciaNodeFact-ReadsBack}
use starkex_data_availabilit.Patricia.Spec.{IsHashFunc}
use starkex_data_availabilit.Patricia.Calculation.{
  HashCalculation, constant, leaf_fact, binary, edge, NodeFact,
}
use starkex_data_availabilit.Patricia.Calculation.Meaning.{
  calc_hash, calc_facts, CalcOk, AllStored, calc_hash-IsHash,
}
use starkex_data_availabilit.Patricia.Calculation.Decommit.{Extends}
use starkex_data_availabilit.Patricia.Tree.Writes.{
  fact_bytes, fact_key, entry, FactReadsBack, FactStored, fact_of_entry, written-Extends,
  get_or_fail-written,
}

module _ {L : Type 0} (hash_func : HashFunc) (good : IsHashFunc hash_func) (lc : LeafClass L) where
  -- No two facts of the list have one hash, and no fact is written to the key of another value.
  pub record NoCollision (db : Db) (facts : List (Bytes × NodeFact L)) : Type 0 where
    pub same_hash : (k : Bytes) (f g : NodeFact L) → Listed k f facts → Listed k g facts → f ≡ g
    pub keys : NoClash db (map (entry lc) facts)

  -- The facts of a calculation that passes its assertions are read back.
  pub facts-ReadsBack :
      (c : HashCalculation L)
      → CalcOk hash_func lc c
      → (k : Bytes) (f : NodeFact L) → Listed k f (calc_facts hash_func lc c)
      → FactReadsBack lc f
  facts-ReadsBack (constant value) ok k f l = absurd l
  facts-ReadsBack (leaf_fact fact) ok k f (inl (p, q)) = subst (FactReadsBack lc) q ok.reads_back
  facts-ReadsBack (leaf_fact fact) ok k f (inr l) = absurd l
  facts-ReadsBack (binary a b) ok k f l = elim (Listed-append k f (calc_facts hash_func lc a) _ l) [
    | inl m ↦ facts-ReadsBack a ok.0 k f m
    | inr m ↦ elim (Listed-append k f (calc_facts hash_func lc b) _ m) [
      | inl n ↦ facts-ReadsBack b ok.1 k f n
      | inr (inl (p, q)) ↦ subst (FactReadsBack lc) q (
          PatriciaNodeFact-ReadsBack
            (binary_fact (calc_hash hash_func lc a) (calc_hash hash_func lc b))
            (
              calc_hash-IsHash hash_func good lc a ok.0,
              calc_hash-IsHash hash_func good lc b ok.1,
              ok.2,
              ok.3,
            ))
      | inr (inr n) ↦ absurd n
    ]
  ]
  facts-ReadsBack (edge b p n) ok k f l = elim (Listed-append k f (calc_facts hash_func lc b) _ l) [
    | inl m ↦ facts-ReadsBack b ok.0 k f m
    | inr (inl (r, q)) ↦ subst (FactReadsBack lc) q (
        PatriciaNodeFact-ReadsBack (edge_fact (calc_hash hash_func lc b) p n)
          (ok.2.hash, ok.1, omega (arith, ok.2.length), ok.2.path))
    | inr (inr m) ↦ absurd m
  ]

  -- The calculation is stored when each of its facts is.
  facts-AllStored :
      (db : Db) (c : HashCalculation L)
      → ((k : Bytes) (f : NodeFact L)
          → Listed k f (calc_facts hash_func lc c)
          → FactStored lc db k f)
      → AllStored hash_func lc db c
  facts-AllStored db (constant value) st = tt
  facts-AllStored db (leaf_fact fact) st = st _ _ (inl (refl, refl))
  facts-AllStored db (binary a b) st = (
    facts-AllStored db a (λ k f l. st k f (Listed-left k f _ _ l)),
    facts-AllStored db b
        (λ k f l. st k f (Listed-right k f (calc_facts hash_func lc a) _ (Listed-left k f _ _ l))),
    st _ _ (
        Listed-right _ _ (calc_facts hash_func lc a) _
          (Listed-right _ _ (calc_facts hash_func lc b) _ (inl (refl, refl)))),
  )
  facts-AllStored db (edge b p n) st = (
    facts-AllStored db b (λ k f l. st k f (Listed-left k f _ _ l)),
    st _ _ (Listed-right _ _ (calc_facts hash_func lc b) _ (inl (refl, refl))),
  )

  module _ (db : Db) (c : HashCalculation L) (ok : CalcOk hash_func lc c)
      (nc : NoCollision db (calc_facts hash_func lc c)) where
    abbrev facts : List (Bytes × NodeFact L)
    facts = calc_facts hash_func lc c

    clash :
        (m : List (Bytes × Bytes))
        → ((k v : Bytes) → Listed k v m → Listed k v (map (entry lc) facts))
        → NoClash db m
    clash m sound = record {
      among = λ k v w l r. nc.keys.among k v w (sound k v l) (sound k w r);
      old = λ k v w l e. nc.keys.old k v w (sound k v l) e;
    }

    -- Objects that were stored before are stored still.
    pub written-old :
        (m : List (Bytes × Bytes))
        → ((k v : Bytes) → Listed k v m → Listed k v (map (entry lc) facts))
        → (k : Bytes) (f : L) → get_or_fail lc.cls db k ≡ some f
        → get_or_fail lc.cls (Dict.update db m) k ≡ some f
    written-old m sound k f h = get_or_fail-written lc.cls db m k f (clash m sound) h

    -- Writing the entries of the calculation's facts, in any order, stores the calculation.
    pub written_lem :
        (m : List (Bytes × Bytes))
        → ((k v : Bytes) → Listed k v m → Listed k v (map (entry lc) facts))
        → ((k : Bytes) (f : NodeFact L)
            → Listed k f facts
            → Listed (fact_key lc k f) (fact_bytes lc f) m)
        → Extends db (Dict.update db m) × AllStored hash_func lc (Dict.update db m) c
    written_lem m sound complete = (
      written-Extends db m (clash m sound),
      facts-AllStored (Dict.update db m) c (λ k f l.
          fact_of_entry lc (Dict.update db m) k f (facts-ReadsBack c ok k f l)
            (get-update_new db m _ _ (clash m sound) (complete k f l))),
    )
