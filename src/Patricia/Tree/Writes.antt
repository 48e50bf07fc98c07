-- ===== src/Patricia/Tree/Writes.antt =====
-- Writing the facts of a calculation to a storage loses no fact, unless two facts clash.
use starkex_data_availabilit.Prelude.{
  ◌≡◌, inl, inr, refl, sym, ap, ◌∙◌, Option, none, some, List, [], ◌∷◌, map, ◌>>=◌, List_eq, ℕ_eq,
  Option-cases,
}
use starkex_data_availabilit.Prelude.Dict.{Dict}
use starkex_data_availabilit.Prelude.Dict
use starkex_data_availabilit.Prelude.Dict.Writes.{Listed, NoClash, get-update_old}
use starkex_data_availabilit.Bytes.{Bytes}
use starkex_data_availabilit.Storage.{Db, DbClass, db_key, get_value, get_or_fail}
use starkex_data_availabilit.Storage.Objects.{ReadsBack, set_lem}
use starkex_data_availabilit.CommitmentTree.Leaf.{LeafClass}
use starkex_data_availabilit.Patricia.Nodes.{patricia_class}
use starkex_data_availabilit.Patricia.VirtualNode.{read_node_fact}
use starkex_data_availabilit.Patricia.Calculation.{NodeFact, leaf, inner}
use starkex_data_availabilit.Patricia.Calculation.Decommit.{Extends}
use starkex_data_availabilit.Patricia.Tree.{set_node_fact, write_fact_nodes}

abbrev pub bytes_of : Option Bytes → Bytes
bytes_of none = []
bytes_of (some bs) = bs

pub bytes_of-some : {o : Option Bytes} {bs : Bytes} → o ≡ some bs → bytes_of o ≡ bs
bytes_of-some e = ap bytes_of e

module _ {L : Type 0} (lc : LeafClass L) where
  -- The bytes of a fact whose serialization does not raise, and the key it is written to.
  abbrev pub fact_bytes : NodeFact L → Bytes
  fact_bytes (leaf fact) = bytes_of (lc.cls.serialize fact)
  fact_bytes (inner fact) = bytes_of (patricia_class.serialize fact)

  abbrev pub fact_key : Bytes → NodeFact L → Bytes
  fact_key hash (leaf fact) = db_key lc.cls hash
  fact_key hash (inner fact) = db_key patricia_class hash

  abbrev pub entry : Bytes × NodeFact L → Bytes × Bytes
  entry (hash, fact) = (fact_key hash fact, fact_bytes fact)

  abbrev pub FactReadsBack : NodeFact L → Type 0
  FactReadsBack (leaf fact) = ReadsBack lc.cls fact
  FactReadsBack (inner fact) = ReadsBack patricia_class fact

  -- The storage has the fact under the hash.
  abbrev pub FactStored : Db → Bytes → NodeFact L → Type 0
  FactStored db hash (leaf fact) = get_or_fail lc.cls db hash ≡ some fact
  FactStored db hash (inner fact) = read_node_fact db hash ≡ some fact

  pub set_node_fact_lem :
      (db : Db) (hash : Bytes) (fact : NodeFact L)
      → FactReadsBack fact
      → set_node_fact lc db hash fact ≡ some (Dict.put db (fact_key hash fact) (fact_bytes fact))
  unfolding set_node_fact
  set_node_fact_lem db hash (leaf fact) (bs, e, _) =
      set_lem lc.cls db fact hash bs e
      ∙ ap (λ b. some (Dict.put db (db_key lc.cls hash) b)) (sym (bytes_of-some e))
  set_node_fact_lem db hash (inner fact) (bs, e, _) =
      set_lem patricia_class db fact hash bs e
      ∙ ap (λ b. some (Dict.put db (db_key patricia_class hash) b)) (sym (bytes_of-some e))

  -- The writes are those of the entries.
  pub write_fact_nodes_lem :
      (facts : List (Bytes × NodeFact L)) (db : Db)
      → ((k : Bytes) (f : NodeFact L) → Listed k f facts → FactReadsBack f)
      → write_fact_nodes lc db facts ≡ some (Dict.update db (map entry facts))
  unfolding write_fact_nodes
  write_fact_nodes_lem [] db rb = refl
  write_fact_nodes_lem ((k, f) ∷ facts) db rb =
      rw (set_node_fact_lem db k f (rb k f (inl (refl, refl))))
        (write_fact_nodes_lem facts _ (λ j g l. rb j g (inr l)))

  pub fact_of_entry :
      (db : Db) (hash : Bytes) (fact : NodeFact L)
      → FactReadsBack fact
      → Dict.get db (fact_key hash fact) ≡ some (fact_bytes fact)
      → FactStored db hash fact
  unfolding get_or_fail get_value
  fact_of_entry db hash (leaf fact) (bs, e, d) g = rw (g ∙ ap some (bytes_of-some e)) d
  fact_of_entry db hash (inner fact) (bs, e, d) g = rw (g ∙ ap some (bytes_of-some e)) d

  pub Listed-map :
      (facts : List (Bytes × NodeFact L)) (k : Bytes) (f : NodeFact L)
      → Listed k f facts
      → Listed (fact_key k f) (fact_bytes f) (map entry facts)
  Listed-map [] k f l = absurd l
  Listed-map ((j, g) ∷ facts) k f (inl (p, q)) =
      inl (λ i. fact_key (p i) (q i), λ i. fact_bytes (q i))
  Listed-map ((j, g) ∷ facts) k f (inr l) = inr (Listed-map facts k f l)

-- An object of any class stays in a storage that is written without clashes.
pub get_or_fail-written :
    {A : Type 0} (cls : DbClass A) (db : Db) (m : List (Bytes × Bytes)) (k : Bytes) (f : A)
    → NoClash db m
    → get_or_fail cls db k ≡ some f
    → get_or_fail cls (Dict.update db m) k ≡ some f
unfolding get_or_fail get_value
get_or_fail-written {A = A} cls db m k f nc h = elim (Option-cases (Dict.get db (db_key cls k))) [
  | inl n ↦ absurd (missing db k f n h)
  | inr (v, g) ↦
      let r : cls.deserialize v ≡ some f = rw (g) at h in
      rw (get-update_old db m (db_key cls k) v nc g) r
]
  where
    missing :
        (db : Db) (k : Bytes) (f : A)
        → Dict.get db (db_key cls k) ≡ none
        → (Dict.get db (db_key cls k) >>= (λ v. cls.deserialize v)) ≡ some f
        → ⊥
    missing db k f n h = let r : none ≡ some f = rw (n) at h in absurd (cc r)

-- A storage that was written without clashes has the old node facts.
pub written-Extends :
    (db : Db) (m : List (Bytes × Bytes)) → NoClash db m → Extends db (Dict.update db m)
written-Extends db m nc k f h = get_or_fail-written patricia_class db m k f nc h
