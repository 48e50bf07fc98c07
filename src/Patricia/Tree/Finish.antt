-- ===== src/Patricia/Tree/Finish.antt =====
-- The end of PatriciaTree.update: from the calculation of the traversal to the new root and storage.
use starkex_data_availabilit.Prelude.{
  ℕ, ◌^◌, ◌<◌, ◌≡◌, inl, inr, sym, Option, some, arith, true, false, List, [], ◌∷◌, ◌++◌, map,
  ◌>>=◌, List_eq, ℕ_eq, Bool-cases, ◌==◌, subst, lt→ltb,
}
use starkex_data_availabilit.Prelude.Dict.{Dict}
use starkex_data_availabilit.Prelude.Dict
use starkex_data_availabilit.Prelude.Dict.Writes.{
  Listed, Listed-of_dict, Listed-in_dict, Listed-left, Listed-right, Listed-append, Listed-of_map,
}
use starkex_data_availabilit.Bytes.{Bytes}
use starkex_data_availabilit.Storage.{Db, db_key, set_fact}
use starkex_data_availabilit.Storage.Objects.{set_lem}
use starkex_data_availabilit.CommitmentTree.Leaf.{LeafClass}
use starkex_data_availabilit.Patricia.Nodes.{HashFunc, patricia_class, edge_fact}
use starkex_data_availabilit.Patricia.Nodes.RoundTrip.{PatriciaNodeFact-ReadsBack, make_edge_lem}
use starkex_data_availabilit.Patricia.Spec.{IsHashFunc, Edge, edge_hash, IsEdge}
use starkex_data_availabilit.Patricia.Spec.Bounds.{fact_hash-edge}
use starkex_data_availabilit.Patricia.VirtualNode.{VirtualPatriciaNode, make_node}
use starkex_data_availabilit.Patricia.VirtualNode
use starkex_data_availabilit.Patricia.Calculation.{
  HashCalculation, edge, NodeFact, inner, VirtualCalculationNode, commit,
}
use starkex_data_availabilit.Patricia.Calculation.Meaning.{
  calc_hash, calc_facts, CalcOk, full_calculate_lem, update-append,
}
use starkex_data_availabilit.Patricia.Tree.{PatriciaTree, calculate_node, finish_update}
use starkex_data_availabilit.Patricia.Tree.Writes.{
  bytes_of-some, fact_bytes, fact_key, entry, Listed-map, write_fact_nodes_lem,
}
use starkex_data_availabilit.Patricia.Tree.Facts.{NoCollision, facts-ReadsBack}

module _ {L : Type 0} (hash_func : HashFunc) (good : IsHashFunc hash_func) (lc : LeafClass L) where
  -- The part of `update` after the traversal.
  abbrev pub tail : Db → VirtualCalculationNode L → Option (PatriciaTree × Db)
  tail db c = finish_update hash_func lc db c >>= (λ x.
      VirtualNode.commit hash_func x.1 x.0
      >>= (λ y. some (record { root = y.0; height = x.0.height }, y.1)))

  -- The writes are the entries of the calculation, once each.
  pub record Finished (db : Db) (c : VirtualCalculationNode L) (b : HashCalculation L)
      : Type 0 where
    pub writes : List (Bytes × Bytes)
    pub result :
        tail db c
        ≡ some
            (record { root = calc_hash hash_func lc b; height = c.height }, Dict.update db writes)
    pub sound :
        (k v : Bytes) → Listed k v writes → Listed k v (map (entry lc) (calc_facts hash_func lc b))
    pub complete :
        (k : Bytes) (f : NodeFact L)
        → Listed k f (calc_facts hash_func lc b)
        → Listed (fact_key lc k f) (fact_bytes lc f) writes

  Listed-in_map :
      (a b : List (Bytes × NodeFact L)) (k v : Bytes)
      → Listed k v (map (entry lc) a)
      → Listed k v (map (entry lc) (a ++ b))
  Listed-in_map [] b k v l = absurd l
  Listed-in_map (x ∷ a) b k v (inl p) = inl p
  Listed-in_map (x ∷ a) b k v (inr l) = inr (Listed-in_map a b k v l)

  Listed-in_map_right :
      (a b : List (Bytes × NodeFact L)) (k v : Bytes)
      → Listed k v (map (entry lc) b)
      → Listed k v (map (entry lc) (a ++ b))
  Listed-in_map_right [] b k v l = l
  Listed-in_map_right (x ∷ a) b k v l = inr (Listed-in_map_right a b k v l)

  module _ (facts : List (Bytes × NodeFact L)) where
    dict_sound :
        (k v : Bytes)
        → Listed k v (map (entry lc) (Dict.update [] facts))
        → Listed k v (map (entry lc) facts)
    dict_sound k v l =
        let (a, f, m, p, q) = Listed-of_map (entry lc) (Dict.update [] facts) k v l in
        subst (λ x. Listed x v (map (entry lc) facts)) p
          (subst (λ y. Listed (fact_key lc a f) y (map (entry lc) facts)) q
            (Listed-map lc facts a f (Listed-of_dict facts a f m)))

    dict_complete :
        ((k : Bytes) (f g : NodeFact L) → Listed k f facts → Listed k g facts → f ≡ g)
        → (k : Bytes) (f : NodeFact L) → Listed k f facts
        → Listed (fact_key lc k f) (fact_bytes lc f) (map (entry lc) (Dict.update [] facts))
    dict_complete same k f l =
        Listed-map lc (Dict.update [] facts) k f (Listed-in_dict facts k f same l)

  finish_update_lem :
      (db : Db) (c : VirtualCalculationNode L)
      → CalcOk hash_func lc c.bottom_calculation
      → c.path < 2 ^ c.length
      → finish_update hash_func lc db c
        ≡ some (
          record {
            bottom_node = calc_hash hash_func lc c.bottom_calculation;
            path = c.path;
            length = c.length;
            height = c.height;
          },
          Dict.update db
              (map (entry lc) (Dict.update [] (calc_facts hash_func lc c.bottom_calculation))),
        )
  unfolding finish_update calculate_node make_node
  finish_update_lem db c ok path =
      let fs = calc_facts hash_func lc c.bottom_calculation in
      rw (
        full_calculate_lem hash_func good lc c.bottom_calculation [] ok,
        lt→ltb c.path (2 ^ c.length) path,
        write_fact_nodes_lem lc (Dict.update [] fs) db (λ k f l.
            facts-ReadsBack hash_func good lc c.bottom_calculation ok k f
              (Listed-of_dict fs k f l)),
      )

  finish_flat :
      (db : Db) (c : VirtualCalculationNode L)
      → CalcOk hash_func lc c.bottom_calculation
      → c.path < 2 ^ c.length
      → (c.length == 0) ≡ true
      → NoCollision hash_func good lc db (calc_facts hash_func lc c.bottom_calculation)
      → Finished db c c.bottom_calculation
  finish_flat db c ok path z nc =
      let fs = calc_facts hash_func lc c.bottom_calculation in
      record {
        writes = map (entry lc) (Dict.update [] fs);
        result = unfold VirtualNode.commit in rw (finish_update_lem db c ok path, z);
        sound = dict_sound fs;
        complete = dict_complete fs nc.same_hash;
      }

  commit_edge_lem :
      (db : Db) (e : Edge) (h : ℕ)
      → 0 < e.length
      → IsEdge 255 e
      → VirtualNode.commit hash_func db
          (record { bottom_node = e.bottom; path = e.path; length = e.length; height = h })
        ≡ some (
          edge_hash hash_func e,
          Dict.put db
              (db_key patricia_class (edge_hash hash_func e))
              (fact_bytes lc (inner (edge_fact e.bottom e.path e.length))),
        )
  unfolding VirtualNode.commit set_fact
  commit_edge_lem db e h pos w =
      let f = edge_fact e.bottom e.path e.length in
      let (bs, s, r) =
        PatriciaNodeFact-ReadsBack f (w.hash, pos, omega (arith, w.length), w.path) in
      let z : (e.length == 0) ≡ false = ground (arith, pos) in
      rw (
        z,
        make_edge_lem e.bottom e.path e.length pos w.path,
        fact_hash-edge hash_func good 255 e (omega arith) w,
        set_lem patricia_class db f (edge_hash hash_func e) bs s,
        bytes_of-some s,
      )

  finish_edge :
      (db : Db) (c : VirtualCalculationNode L)
      → CalcOk hash_func lc (edge c.bottom_calculation c.path c.length)
      → NoCollision hash_func good lc db
          (calc_facts hash_func lc (edge c.bottom_calculation c.path c.length))
      → Finished db c (edge c.bottom_calculation c.path c.length)
  finish_edge db c ok nc =
      let b = c.bottom_calculation in
      let fs = calc_facts hash_func lc b in
      let e : Edge = record {
        bottom = calc_hash hash_func lc b;
        path = c.path;
        length = c.length;
      } in
      let f : NodeFact L = inner (edge_fact e.bottom e.path e.length) in
      let last = (edge_hash hash_func e, f) ∷ [] in
      let m = map (entry lc) (Dict.update [] fs) in
      record {
        writes = m ++ map (entry lc) last;
        result = rw (
          finish_update_lem db c ok.0 ok.2.path,
          commit_edge_lem (Dict.update db m) e c.height ok.1 ok.2,
          update-append db m (map (entry lc) last),
        );
        sound = λ k v l. elim (Listed-append k v m (map (entry lc) last) l) [
          | inl n ↦ Listed-in_map fs last k v (dict_sound fs k v n)
          | inr n ↦ Listed-in_map_right fs last k v n
        ];
        complete = λ k g l. elim (Listed-append k g fs last l) [
          | inl n ↦ Listed-left _ _ m (map (entry lc) last) (
              dict_complete fs
                (λ j x y p q.
                  nc.same_hash j x y (Listed-left j x fs last p) (Listed-left j y fs last q))
                k g n)
          | inr n ↦ Listed-right _ _ m (map (entry lc) last) (Listed-map lc last k g n)
        ];
      }

  commit_flat :
      (c : VirtualCalculationNode L) → (c.length == 0) ≡ true → commit c ≡ c.bottom_calculation
  unfolding commit
  commit_flat c z = rw (z)

  commit_long :
      (c : VirtualCalculationNode L)
      → (c.length == 0) ≡ false
      → commit c ≡ edge c.bottom_calculation c.path c.length
  unfolding commit
  commit_long c z = rw (z)

  -- The update ends with the hash of the committed calculation and writes its facts.
  pub finish_lem :
      (db : Db) (c : VirtualCalculationNode L)
      → CalcOk hash_func lc c.bottom_calculation
      → CalcOk hash_func lc (commit c)
      → c.path < 2 ^ c.length
      → NoCollision hash_func good lc db (calc_facts hash_func lc (commit c))
      → Finished db c (commit c)
  finish_lem db c ok okc path nc = elim (Bool-cases (c.length == 0)) [
    | inl z ↦
        let nc' =
          subst (λ x. NoCollision hash_func good lc db (calc_facts hash_func lc x))
            (commit_flat c z) nc in
        subst (Finished db c) (sym (commit_flat c z)) (finish_flat db c ok path z nc')
    | inr z ↦
        let nc' =
          subst (λ x. NoCollision hash_func good lc db (calc_facts hash_func lc x))
            (commit_long c z) nc in
        let okc' = subst (CalcOk hash_func lc) (commit_long c z) okc in
        subst (Finished db c) (sym (commit_long c z)) (finish_edge db c okc' nc')
  ]
