-- ===== src/Patricia/VirtualNode/Children.antt =====
-- `get_children` gives the two subtrees.
use starkex_data_availabilit.Prelude.{
  ℕ, suc, ◌+◌, ◌-◌, ◌/◌, ◌%◌, ◌^◌, ◌<◌, ◌≡◌, ◌≢◌, ◌⊎◌, inl, inr, refl, sym, ap, ◌∙◌, some, arith,
  lt→ltb, eqb-suc, ◌==◌, ℕ_eq, false,
}
use starkex_data_availabilit.Bytes.{Bytes}
use starkex_data_availabilit.Storage.{Db}
use starkex_data_availabilit.Patricia.Nodes.{
  HashFunc, PatriciaNodeFact, empty_node_hash, edge_fact, binary_fact,
}
use starkex_data_availabilit.Patricia.Nodes.RoundTrip.{is_empty_hash-empty, is_empty_hash-false}
use starkex_data_availabilit.Patricia.Spec.{
  Tree, Edge, no_edge, commitment, virtual, root, IsTree, IsHashFunc, IsEdge,
}
use starkex_data_availabilit.Patricia.Spec.Bounds.{
  commitment-IsHash, commitment-nonempty, virtual-IsEdge, JoinCases, both_empty, only_right,
  only_left, both, join-cases, up_left, up_right,
}
use starkex_data_availabilit.Patricia.VirtualNode.{
  VirtualPatriciaNode, make_node, from_hash, empty_node, read_node_fact,
  get_virtual_edge_node_children, children_of_fact, get_children,
}
use starkex_data_availabilit.Patricia.VirtualNode.Represents.{
  node_of, EdgeStored, Stored, Represents,
}

make_node_lem :
    (h : ℕ) (e : Edge) → IsEdge h e → make_node e.bottom e.path e.length h ≡ some (node_of h e)
unfolding make_node
make_node_lem h e w = rw (lt→ltb e.path (2 ^ e.length) w.path)

high_bit : (p q : ℕ) → p < q → ((p + q) % q ≡ p) × ((p + q) / q ≡ 1)
high_bit p q h = grind arith

no_high_bit : (p q : ℕ) → p < q → (p % q ≡ p) × (p / q ≡ 0)
no_high_bit p q h = grind arith

children_right :
    (h : ℕ) (e : Edge)
    → IsEdge h e
    → get_virtual_edge_node_children (node_of (suc h) (up_right e))
      ≡ some (empty_node h, node_of h e)
unfolding get_virtual_edge_node_children
children_right h e w =
    let n : e.length + 1 - 1 ≡ e.length = omega arith in
    let k : suc h - 1 ≡ h = omega arith in
    let (m, d) = high_bit e.path (2 ^ e.length) w.path in
    rw (n, k, m, d, lt→ltb e.path (2 ^ e.length) w.path)

children_left :
    (h : ℕ) (e : Edge)
    → IsEdge h e
    → get_virtual_edge_node_children (node_of (suc h) (up_left e))
      ≡ some (node_of h e, empty_node h)
unfolding get_virtual_edge_node_children
children_left h e w =
    let n : e.length + 1 - 1 ≡ e.length = omega arith in
    let k : suc h - 1 ≡ h = omega arith in
    let (m, d) = no_high_bit e.path (2 ^ e.length) w.path in
    rw (n, k, m, d, lt→ltb e.path (2 ^ e.length) w.path)

-- The branches of `get_children`.
children_empty :
    (db : Db) (h : ℕ)
    → get_children db (from_hash empty_node_hash (suc h)) ≡ some (empty_node h, empty_node h)
unfolding get_children
children_empty db h = let k : suc h - 1 ≡ h = omega arith in rw (eqb-suc h, is_empty_hash-empty, k)

children_edge :
    (db : Db) (h n : ℕ) (e : Edge)
    → e.bottom ≢ empty_node_hash
    → e.length ≡ n + 1
    → get_children db (node_of (suc h) e) ≡ get_virtual_edge_node_children (node_of (suc h) e)
unfolding get_children
children_edge db h n e ne len =
    let k : (e.length == 0) ≡ false = ground arith in
    rw (eqb-suc h, is_empty_hash-false e.bottom ne, k)

children_read :
    (db : Db) (h : ℕ) (b : Bytes) (f : PatriciaNodeFact)
    → b ≢ empty_node_hash
    → read_node_fact db b ≡ some f
    → get_children db (from_hash b (suc h)) ≡ children_of_fact (suc h) f
unfolding get_children
children_read db h b f ne e = rw (eqb-suc h, is_empty_hash-false b ne, e)

children_of_edge_fact :
    (h : ℕ) (e : Edge)
    → IsEdge (suc h) e
    → children_of_fact (suc h) (edge_fact e.bottom e.path e.length)
      ≡ get_virtual_edge_node_children (node_of (suc h) e)
unfolding children_of_fact
children_of_edge_fact h e w = rw (make_node_lem (suc h) e w)

children_of_binary_fact :
    (h : ℕ) (l r : Bytes)
    → children_of_fact (suc h) (binary_fact l r) ≡ some (from_hash l h, from_hash r h)
unfolding children_of_fact
children_of_binary_fact h l r = let k : suc h - 1 ≡ h = omega arith in rw k

module _ (hash_func : HashFunc) (good : IsHashFunc hash_func) (db : Db) where
  -- An edge gives the children of its virtual node, also from its stored fact.
  edge_children :
      (h n : ℕ) (e : Edge) (v : VirtualPatriciaNode)
      → suc h < 256
      → IsEdge (suc h) e
      → e.bottom ≢ empty_node_hash
      → e.length ≡ n + 1
      → (v ≡ node_of (suc h) e)
        ⊎ ((v ≡ from_hash (commitment hash_func e) (suc h)) × EdgeStored hash_func db e)
      → get_children db v ≡ get_virtual_edge_node_children (node_of (suc h) e)
  edge_children h n e v small w ne len (inl p) = rw p (children_edge db h n e ne len)
  edge_children h n e v small w ne len (inr (p, stored)) = rw p (
      children_read db h (commitment hash_func e) _
        (commitment-nonempty hash_func good (suc h) e small w ne) (stored (omega arith))
      ∙ children_of_edge_fact h e w)

  -- An empty tree is represented by the empty node.
  empty_represents :
      (h : ℕ) (t : Tree h)
      → IsTree h t
      → (virtual hash_func h t).bottom ≡ empty_node_hash
      → empty_node h ≡ node_of h (virtual hash_func h t)
  empty_represents h t w p =
      let e = virtual hash_func h t in
      let (q, r) = (virtual-IsEdge hash_func good h t w).empty p in
      λ i. record { bottom_node = sym p i; path = sym q i; length = sym r i; height = h }

  -- The commitment of a triple with no path is its bottom.
  commitment-no_edge : (b : Bytes) → commitment hash_func (no_edge b) ≡ b
  unfolding commitment
  commitment-no_edge b = refl

  -- A node that stands for a triple with no path is the node of its bottom.
  plain_node :
      (h : ℕ) (b : Bytes) (e : Edge) (v : VirtualPatriciaNode)
      → e ≡ no_edge b
      → (v ≡ node_of h e) ⊎ ((v ≡ from_hash (commitment hash_func e) h) × EdgeStored hash_func db e)
      → v ≡ from_hash b h
  plain_node h b e v q (inl p) = p ∙ ap (node_of h) q
  plain_node h b e v q (inr (p, stored)) =
      p
      ∙ ap (λ x. from_hash (commitment hash_func x) h) q
      ∙ ap (λ x. from_hash x h) (commitment-no_edge b)

  module _ (h : ℕ) (t : Tree (suc h)) (w : IsTree (suc h) t) (small : suc h < 256) where
    abbrev Children : VirtualPatriciaNode → Type 0
    Children v =
        (l r : VirtualPatriciaNode) × (get_children db v ≡ some (l, r))
        × Represents hash_func db h t.0 l
        × Represents hash_func db h t.1 r

    Children-by_cases :
        (v : VirtualPatriciaNode) (j : Edge)
        → JoinCases hash_func (virtual hash_func h t.0) (virtual hash_func h t.1) j
        → Stored hash_func db (suc h) t
        → IsEdge (suc h) j
        → (v ≡ node_of (suc h) j)
          ⊎ ((v ≡ from_hash (commitment hash_func j) (suc h)) × EdgeStored hash_func db j)
        → Children v
    unfolding root
    Children-by_cases v j (both_empty pl pr pj) s wj rep = (
      empty_node h,
      empty_node h,
      rw (plain_node (suc h) empty_node_hash j v pj rep) (children_empty db h),
      inl (empty_represents h t.0 w.0 pl),
      inl (empty_represents h t.1 w.1 pr),
    )
    Children-by_cases v j (only_right pl nr pj) s wj rep =
        let r = virtual hash_func h t.1 in
        (
          empty_node h,
          node_of h r,
          edge_children h (virtual hash_func h t.1).length j v small wj (rw pj nr) (rw pj) rep
              ∙ rw pj (children_right h r (virtual-IsEdge hash_func good h t.1 w.1)),
          inl (empty_represents h t.0 w.0 pl),
          inl refl,
        )
    Children-by_cases v j (only_left nl pr pj) s wj rep =
        let l = virtual hash_func h t.0 in
        (
          node_of h l,
          empty_node h,
          edge_children h (virtual hash_func h t.0).length j v small wj (rw pj nl) (rw pj) rep
              ∙ rw pj (children_left h l (virtual-IsEdge hash_func good h t.0 w.0)),
          inl refl,
          inl (empty_represents h t.1 w.1 pr),
        )
    Children-by_cases v j (both nl nr pj) s wj rep =
        let l = virtual hash_func h t.0 in
        let r = virtual hash_func h t.1 in
        let (fact, sl, sr) = s.2 nl nr in
        (
          from_hash (commitment hash_func l) h,
          from_hash (commitment hash_func r) h,
          rw (plain_node (suc h) _ j v pj rep) (
              children_read db h _ _
                (good.nonzero _ _
                  (commitment-IsHash hash_func good h l (virtual-IsEdge hash_func good h t.0 w.0))
                  (commitment-IsHash hash_func good h r (virtual-IsEdge hash_func good h t.1 w.1)))
                fact
              ∙ children_of_binary_fact h _ _),
          inr (refl, sl),
          inr (refl, sr),
        )

  -- On a node that stands for a tree of a height above 0 and below 256 whose facts are stored,
  -- `get_children` succeeds, and its two results stand for the two subtrees.
  pub get_children-Represents :
      (h : ℕ) (t : Tree (suc h)) (v : VirtualPatriciaNode)
      → suc h < 256
      → IsTree (suc h) t
      → Stored hash_func db (suc h) t
      → Represents hash_func db (suc h) t v
      → (l r : VirtualPatriciaNode) × (get_children db v ≡ some (l, r))
        × Represents hash_func db h t.0 l
        × Represents hash_func db h t.1 r
  unfolding virtual root
  get_children-Represents h t v small w s rep =
      Children-by_cases h t w small v _ (join-cases hash_func _ _) s
        (virtual-IsEdge hash_func good (suc h) t w) rep
