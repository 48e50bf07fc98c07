-- ===== src/Patricia/Update/FromNode.antt =====
-- `create_from_node` of a virtual node that stands for a tree.
use starkex_data_availabilit.Prelude.{
  ℕ, zero, suc, ◌^◌, ◌<◌, ◌≡◌, ◌≢◌, inl, inr, refl, sym, ap, ◌∙◌, some, arith, true, false,
  Bool-cases, ◌==◌, ℕ_eq, subst,
}
use starkex_data_availabilit.Bytes.{Bytes}
use starkex_data_availabilit.Storage.{Db}
use starkex_data_availabilit.CommitmentTree.Leaf.{LeafClass}
use starkex_data_availabilit.Patricia.Nodes.{HashFunc, empty_node_hash, is_empty_hash, binary_fact}
use starkex_data_availabilit.Patricia.Nodes.RoundTrip.{is_empty_hash-true, is_empty_hash-false}
use starkex_data_availabilit.Patricia.Spec.{
  Tree, Edge, no_edge, commitment, virtual, root, IsTree, IsHashFunc, IsEdge,
}
use starkex_data_availabilit.Patricia.Spec.Bounds.{
  commitment-IsHash, commitment-nonempty, virtual-IsEdge, JoinCases, both_empty, only_right,
  only_left, both, join-cases, empty_node_hash-IsHash,
}
use starkex_data_availabilit.Patricia.VirtualNode.{VirtualPatriciaNode, from_hash, read_node_fact}
use starkex_data_availabilit.Patricia.VirtualNode.Represents.{
  node_of, EdgeStored, Stored, Represents,
}
use starkex_data_availabilit.Patricia.Calculation.{constant, create_from_node, empty_node}
use starkex_data_availabilit.Patricia.Calculation.Decommit.{Extends, CalcRepresents}

module _ {L : Type 0} (hash_func : HashFunc) (good : IsHashFunc hash_func) (lc : LeafClass L)
    (db : Db) where
  create_from_node_empty :
      (node : VirtualPatriciaNode)
      → is_empty_hash node.bottom_node ≡ true
      → create_from_node {L = L} node ≡ empty_node node.height
  unfolding create_from_node
  create_from_node_empty node e = rw e

  create_from_node_full :
      (node : VirtualPatriciaNode)
      → is_empty_hash node.bottom_node ≡ false
      → create_from_node {L = L} node ≡ record {
        bottom_calculation = constant node.bottom_node;
        path = node.path;
        length = node.length;
        height = node.height;
      }
  unfolding create_from_node
  create_from_node_full node e = rw e

  -- More facts keep a tree stored.
  pub Stored-Extends :
      (db' : Db) (h : ℕ) (t : Tree h)
      → Extends db db'
      → Stored hash_func db h t
      → Stored hash_func db' h t
  Stored-Extends db' zero t ext st = tt
  Stored-Extends db' (suc h) t ext (sl, sr, sb) = (
    Stored-Extends db' h t.0 ext sl,
    Stored-Extends db' h t.1 ext sr,
    λ nl nr.
        let (b, el, er) = sb nl nr in
        (ext _ _ b, (λ pos. ext _ _ (el pos)), (λ pos. ext _ _ (er pos))),
  )

  -- The bottom of a stored tree is a binary node that is in the storage, if no edge is above it.
  bottom_by_cases :
      (l r j : Edge)
      → JoinCases hash_func l r j
      → (l.bottom ≢ empty_node_hash
          → r.bottom ≢ empty_node_hash
          → (read_node_fact db (hash_func (commitment hash_func l) (commitment hash_func r))
              ≡ some (binary_fact (commitment hash_func l) (commitment hash_func r))))
      → j.length ≡ 0
      → j.bottom ≢ empty_node_hash
      → (a b : Bytes) × (read_node_fact db j.bottom ≡ some (binary_fact a b))
  bottom_by_cases l r j (both_empty pl pr pj) st len ne =
      absurd (ne (ap (λ (e : Edge). e.bottom) pj))
  bottom_by_cases l r j (only_right pl nr pj) st len ne =
      absurd (omega (arith, ap (λ (e : Edge). e.length) pj))
  bottom_by_cases l r j (only_left nl pr pj) st len ne =
      absurd (omega (arith, ap (λ (e : Edge). e.length) pj))
  bottom_by_cases l r j (both nl nr pj) st len ne =
      (_, _, ap (λ (e : Edge). read_node_fact db e.bottom) pj ∙ st nl nr)

  bottom-Stored :
      (h : ℕ) (t : Tree h)
      → Stored hash_func db h t
      → 0 < h
      → (virtual hash_func h t).length ≡ 0
      → (virtual hash_func h t).bottom ≢ empty_node_hash
      → (a b : Bytes) × (read_node_fact db (virtual hash_func h t).bottom ≡ some (binary_fact a b))
  unfolding virtual
  bottom-Stored zero t st pos len ne = absurd (omega (arith, pos))
  bottom-Stored (suc h) t st pos len ne =
      bottom_by_cases (virtual hash_func h t.0) (virtual hash_func h t.1) _
        (join-cases hash_func (virtual hash_func h t.0) (virtual hash_func h t.1))
        (λ nl nr. (st.2 nl nr).0) len ne

  zero_path : (p n : ℕ) → (n == 0) ≡ true → p < 2 ^ n → p ≡ 0
  zero_path p zero z lt = omega arith
  zero_path p (suc n) z lt = absurd (ground arith)

  flat :
      (h : ℕ) (e : Edge)
      → IsEdge h e
      → (e.length == 0) ≡ true
      → node_of h e ≡ from_hash (commitment hash_func e) h
  unfolding commitment
  flat h e we z =
      let len : e.length ≡ 0 = ground arith in
      (λ i. record {
        bottom_node = e.bottom;
        path = zero_path e.path e.length z we.path i;
        length = len i;
        height = h;
      })
      ∙ rw (z)

  module _ (h : ℕ) (t : Tree h) (w : IsTree h t) (st : Stored hash_func db h t) where
    abbrev bounds : IsEdge h (virtual hash_func h t)
    bounds = virtual-IsEdge hash_func good h t w

    from_empty :
        (virtual hash_func h t).bottom ≡ empty_node_hash
        → CalcRepresents hash_func lc db h t (empty_node h)
    from_empty p = record {
      shape = inl (record {
        height = refl;
        triple_eq = empty_edge (virtual hash_func h t) p (bounds.empty p);
        bottom = λ pos len ne. absurd (ne refl);
      });
      builds = record {
        ok = empty_node_hash-IsHash;
        stores = λ db' ext _. Stored-Extends db' h t ext st;
      };
    }
      where
        empty_edge :
            (e : Edge)
            → e.bottom ≡ empty_node_hash
            → (e.path ≡ 0) × (e.length ≡ 0)
            → no_edge empty_node_hash ≡ e
        empty_edge e p (q, r) = λ i. record { bottom = sym p i; path = sym q i; length = sym r i }

    from_triple :
        CalcRepresents hash_func lc db h t (create_from_node (node_of h (virtual hash_func h t)))
    from_triple = elim (Bool-cases (is_empty_hash (virtual hash_func h t).bottom)) [
      | inl e ↦
          subst (CalcRepresents hash_func lc db h t)
            (sym (create_from_node_empty (node_of h (virtual hash_func h t)) e))
            (from_empty (is_empty_hash-true _ e))
      | inr e ↦
          subst (CalcRepresents hash_func lc db h t)
            (sym (create_from_node_full (node_of h (virtual hash_func h t)) e))
            (record {
              shape = inl (record {
                height = refl;
                triple_eq = refl;
                bottom = λ pos len ne. bottom-Stored h t st pos len ne;
              });
              builds = record {
                ok = bounds.hash;
                stores = λ db' ext _. Stored-Extends db' h t ext st;
              };
            })
    ]

    from_hash_lem :
        h < 256
        → EdgeStored hash_func db (virtual hash_func h t)
        → CalcRepresents hash_func lc db h t (create_from_node (from_hash (root hash_func h t) h))
    unfolding root
    from_hash_lem small es = elim (Bool-cases ((virtual hash_func h t).length == 0)) [
      | inl z ↦
          subst (λ n. CalcRepresents hash_func lc db h t (create_from_node n))
            (flat h (virtual hash_func h t) bounds z) from_triple
      | inr z ↦
          let e : Edge = virtual hash_func h t in
          let above : 0 < e.length = positive e.length z in
          let ne : e.bottom ≢ empty_node_hash = λ p. absurd (omega (arith, (bounds.empty p).1)) in
          subst (CalcRepresents hash_func lc db h t)
            (sym (
              create_from_node_full (from_hash (commitment hash_func e) h)
                (is_empty_hash-false _ (commitment-nonempty hash_func good h e small bounds ne))))
            (record {
              shape = inr (record {
                height = refl;
                bottom = refl;
                length = refl;
                path = refl;
                above = above;
                stored = es;
              });
              builds = record {
                ok = commitment-IsHash hash_func good h e bounds;
                stores = λ db' ext _. Stored-Extends db' h t ext st;
              };
            })
    ]
      where
        positive : (n : ℕ) → (n == 0) ≡ false → 0 < n
        positive n z = ground arith

    -- `create_from_node` of a node that stands for a tree gives a calculation that stands for it.
    pub create_from_node_lem :
        (node : VirtualPatriciaNode)
        → h < 256
        → Represents hash_func db h t node
        → CalcRepresents hash_func lc db h t (create_from_node node)
    create_from_node_lem node small rep = elim rep [
      | inl e ↦
          subst (λ n. CalcRepresents hash_func lc db h t (create_from_node n)) (sym e) from_triple
      | inr (e, es) ↦
          subst (λ n. CalcRepresents hash_func lc db h t (create_from_node n)) (sym e)
            (from_hash_lem small es)
    ]
