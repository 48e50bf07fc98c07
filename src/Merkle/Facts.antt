-- ===== src/Merkle/Facts.antt =====
-- Writing the facts of a Merkle calculation: each is read back, and no old one is lost.
use starkex_data_availabilit.Prelude.{
  ◌≡◌, inl, inr, refl, sym, ap, ◌∙◌, some, List, [], ◌∷◌, map, List_eq, ℕ_eq, subst,
}
use starkex_data_availabilit.Prelude.Dict
use starkex_data_availabilit.Prelude.Dict.Writes.{
  Listed, NoClash, get-update_new, Listed-of_dict, Listed-in_dict, Listed-left, Listed-right,
  Listed-append,
}
use starkex_data_availabilit.Bytes.{Bytes}
use starkex_data_availabilit.Storage.{Db, db_key, get_value, get_or_fail}
use starkex_data_availabilit.Storage.Objects.{ReadsBack, set_lem}
use starkex_data_availabilit.CommitmentTree.Leaf.{LeafClass}
use starkex_data_availabilit.Patricia.Nodes.{HashFunc}
use starkex_data_availabilit.Patricia.Calculation.Meaning.{digest}
use starkex_data_availabilit.Patricia.Tree.Writes.{bytes_of, bytes_of-some, get_or_fail-written}
use starkex_data_availabilit.Merkle.{
  MerkleNodeFact, make_fact, merkle_class, HashCalculation, constant, leaf_fact, binary, NodeFact,
  leaf, inner, MerkleCalculationNode, make_node, set_node_fact, write_fact_nodes, finish_update,
}
use starkex_data_availabilit.Merkle.Hash.{
  GivesHashes, MerkleNodeFact-ReadsBack, calc_hash, calc_facts, CalcOk, calc_hash-IsHash,
  full_calculate_lem,
}

module _ {L : Type 0} (lc : LeafClass L) where
  abbrev pub fact_bytes : NodeFact L → Bytes
  fact_bytes (leaf fact) = bytes_of (lc.cls.serialize fact)
  fact_bytes (inner fact) = bytes_of (merkle_class.serialize fact)

  abbrev pub fact_key : Bytes → NodeFact L → Bytes
  fact_key hash (leaf fact) = db_key lc.cls hash
  fact_key hash (inner fact) = db_key merkle_class hash

  abbrev pub entry : Bytes × NodeFact L → Bytes × Bytes
  entry (hash, fact) = (fact_key hash fact, fact_bytes fact)

  abbrev FactReadsBack : NodeFact L → Type 0
  FactReadsBack (leaf fact) = ReadsBack lc.cls fact
  FactReadsBack (inner fact) = ReadsBack merkle_class fact

  abbrev FactStored : Db → Bytes → NodeFact L → Type 0
  FactStored db hash (leaf fact) = get_or_fail lc.cls db hash ≡ some fact
  FactStored db hash (inner fact) = get_or_fail merkle_class db hash ≡ some fact

  set_node_fact_lem :
      (hash_func : HashFunc) (db : Db) (hash : Bytes) (fact : NodeFact L)
      → FactReadsBack fact
      → set_node_fact hash_func lc db hash fact
        ≡ some (Dict.put db (fact_key hash fact) (fact_bytes fact))
  unfolding set_node_fact
  set_node_fact_lem hash_func db hash (leaf fact) (bs, e, _) =
      set_lem lc.cls db fact hash bs e
      ∙ ap (λ b. some (Dict.put db (db_key lc.cls hash) b)) (sym (bytes_of-some e))
  set_node_fact_lem hash_func db hash (inner fact) (bs, e, _) =
      set_lem merkle_class db fact hash bs e
      ∙ ap (λ b. some (Dict.put db (db_key merkle_class hash) b)) (sym (bytes_of-some e))

  write_fact_nodes_lem :
      (hash_func : HashFunc) (facts : List (Bytes × NodeFact L)) (db : Db)
      → ((k : Bytes) (f : NodeFact L) → Listed k f facts → FactReadsBack f)
      → write_fact_nodes hash_func lc db facts ≡ some (Dict.update db (map entry facts))
  unfolding write_fact_nodes
  write_fact_nodes_lem hash_func [] db rb = refl
  write_fact_nodes_lem hash_func ((k, f) ∷ facts) db rb =
      rw (set_node_fact_lem hash_func db k f (rb k f (inl (refl, refl))))
        (write_fact_nodes_lem hash_func facts _ (λ j g l. rb j g (inr l)))

  pub fact_of_entry :
      (db : Db) (hash : Bytes) (fact : NodeFact L)
      → FactReadsBack fact
      → Dict.get db (fact_key hash fact) ≡ some (fact_bytes fact)
      → FactStored db hash fact
  unfolding get_or_fail get_value
  fact_of_entry db hash (leaf fact) (bs, e, d) g = rw (g ∙ ap some (bytes_of-some e)) d
  fact_of_entry db hash (inner fact) (bs, e, d) g = rw (g ∙ ap some (bytes_of-some e)) d

  pub Listed-entry :
      (facts : List (Bytes × NodeFact L)) (k : Bytes) (f : NodeFact L)
      → Listed k f facts
      → Listed (fact_key k f) (fact_bytes f) (map entry facts)
  Listed-entry [] k f l = absurd l
  Listed-entry ((j, g) ∷ facts) k f (inl (p, q)) =
      inl (λ i. fact_key (p i) (q i), λ i. fact_bytes (q i))
  Listed-entry ((j, g) ∷ facts) k f (inr l) = inr (Listed-entry facts k f l)

-- A storage with all facts of another one.
pub record Keeps {L : Type 0} (lc : LeafClass L) (db db' : Db) : Type 0 where
  pub nodes :
      (k : Bytes) (f : MerkleNodeFact)
      → get_or_fail merkle_class db k ≡ some f
      → get_or_fail merkle_class db' k ≡ some f
  pub leaves :
      (k : Bytes) (f : L) → get_or_fail lc.cls db k ≡ some f → get_or_fail lc.cls db' k ≡ some f

module _ {L : Type 0} (hash_func : HashFunc) (lc : LeafClass L) where
  -- No two facts of the list have one hash, and no fact is written to the key of another value.
  pub record NoCollision (db : Db) (facts : List (Bytes × NodeFact L)) : Type 0 where
    pub same_hash : (k : Bytes) (f g : NodeFact L) → Listed k f facts → Listed k g facts → f ≡ g
    pub keys : NoClash db (map (entry lc) (Dict.update [] facts))

  -- The facts of the calculation are in the storage.
  abbrev pub AllStored : Db → HashCalculation L → Type 0
  AllStored db (constant value) = Unit
  AllStored db (leaf_fact fact) = get_or_fail lc.cls db (digest lc fact) ≡ some fact
  AllStored db (binary l r) =
      AllStored db l
      × AllStored db r
      × (get_or_fail merkle_class db (calc_hash hash_func lc (binary l r))
          ≡ some (make_fact (calc_hash hash_func lc l) (calc_hash hash_func lc r)))

  facts-ReadsBack :
      GivesHashes hash_func
      → (c : HashCalculation L) → CalcOk hash_func lc c
      → (k : Bytes) (f : NodeFact L) → Listed k f (calc_facts hash_func lc c)
      → FactReadsBack lc f
  facts-ReadsBack good (constant value) ok k f l = absurd l
  facts-ReadsBack good (leaf_fact fact) ok k f (inl (p, q)) =
      subst (FactReadsBack lc) q ok.reads_back
  facts-ReadsBack good (leaf_fact fact) ok k f (inr l) = absurd l
  facts-ReadsBack good (binary a b) ok k f l =
      elim (Listed-append k f (calc_facts hash_func lc a) _ l) [
        | inl m ↦ facts-ReadsBack good a ok.0 k f m
        | inr m ↦ elim (Listed-append k f (calc_facts hash_func lc b) _ m) [
          | inl n ↦ facts-ReadsBack good b ok.1 k f n
          | inr (inl (p, q)) ↦ subst (FactReadsBack lc) q (
              MerkleNodeFact-ReadsBack (calc_hash hash_func lc a) (calc_hash hash_func lc b)
                (calc_hash-IsHash hash_func lc good a ok.0)
                (calc_hash-IsHash hash_func lc good b ok.1))
          | inr (inr n) ↦ absurd n
        ]
      ]

  facts-AllStored :
      (db : Db) (c : HashCalculation L)
      → ((k : Bytes) (f : NodeFact L)
          → Listed k f (calc_facts hash_func lc c)
          → FactStored lc db k f)
      → AllStored db c
  facts-AllStored db (constant value) st = tt
  facts-AllStored db (leaf_fact fact) st = st _ _ (inl (refl, refl))
  facts-AllStored db (binary a b) st = (
    facts-AllStored db a (λ k f l. st k f (Listed-left k f _ _ l)),
    facts-AllStored db b
        (λ k f l. st k f (Listed-right k f (calc_facts hash_func lc a) _ (Listed-left k f _ _ l))),
    st _ _ (
        Listed-right _ _ (calc_facts hash_func lc a) _
          (Listed-right _ _ (calc_facts hash_func lc b) _ (inl (refl, refl)))),
  )

  -- What the end of an update leaves.
  pub record Written (db : Db) (c : MerkleCalculationNode L) : Type 0 where
    pub new_db : Db
    pub result :
        finish_update hash_func lc db c
        ≡ some (make_node (calc_hash hash_func lc c.root_calculation) c.height, new_db)
    pub keeps : Keeps lc db new_db
    pub stored : AllStored new_db c.root_calculation

  -- The end of an update writes all facts of the calculation and loses none.
  pub finish_update_lem :
      (db : Db) (c : MerkleCalculationNode L)
      → GivesHashes hash_func
      → CalcOk hash_func lc c.root_calculation
      → NoCollision db (calc_facts hash_func lc c.root_calculation)
      → Written db c
  unfolding finish_update
  finish_update_lem db c good ok nc =
      let fs = calc_facts hash_func lc c.root_calculation in
      let m = map (entry lc) (Dict.update [] fs) in
      record {
        new_db = Dict.update db m;
        result = rw (
          full_calculate_lem hash_func lc c.root_calculation [] ok,
          write_fact_nodes_lem lc hash_func (Dict.update [] fs) db
              (λ k f l. facts-ReadsBack good c.root_calculation ok k f (Listed-of_dict fs k f l)),
        );
        keeps = record {
          nodes = λ k f h. get_or_fail-written merkle_class db m k f nc.keys h;
          leaves = λ k f h. get_or_fail-written lc.cls db m k f nc.keys h;
        };
        stored = facts-AllStored (Dict.update db m) c.root_calculation (λ k f l.
            fact_of_entry lc (Dict.update db m) k f
              (facts-ReadsBack good c.root_calculation ok k f l)
              (get-update_new db m _ _ nc.keys
                (Listed-entry lc (Dict.update [] fs) k f (Listed-in_dict fs k f nc.same_hash l))));
      }
