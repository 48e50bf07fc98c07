-- ===== src/Patricia/Leaves/Cases.antt =====
-- The calls that `_get_leaves` makes on a leaf, on an inner node and on a virtual edge.
use starkex_data_availabilit.Prelude.{
  ℕ, zero, suc, ◌+◌, ◌-◌, ◌*◌, ◌/◌, ◌^◌, ◌<◌, ◌≤◌, ◌≡◌, ◌≢◌, refl, sym, ap, ◌∙◌, subst, arith, Bool,
  true, false, not, ◌&&◌, inl, inr, Option, some, List, [], ◌∷◌, keep, ltb, leb, ◌==◌, ℕ_eq,
  eqb_iff, if◌then◌else◌, Bool-cases, &&-true, eqb-suc,
}
use native.Mathlib.Nat.{div-lt_iff_lt-mul, le-div_iff_mul-le}
use starkex_data_availabilit.Prelude.Dict.{Dict, IsDict}
use starkex_data_availabilit.Prelude.Dict
use starkex_data_availabilit.Bytes.{Bytes}
use starkex_data_availabilit.Storage.{Db, DbClass, get_or_fail}
use starkex_data_availabilit.CommitmentTree.UpdateTree.{elem}
use starkex_data_availabilit.CommitmentTree.UpdateTree.Correct.{two_pow}
use starkex_data_availabilit.Patricia.Nodes.{HashFunc, empty_node_hash}
use starkex_data_availabilit.Patricia.Spec.{Tree, virtual, IsTree, IsHashFunc}
use starkex_data_availabilit.Patricia.VirtualNode.{VirtualPatriciaNode, from_hash}
use starkex_data_availabilit.Patricia.VirtualNode.Represents.{node_of, Stored, Represents}
use starkex_data_availabilit.Patricia.VirtualNode.Children.{get_children-Represents}
use starkex_data_availabilit.Patricia.Update.{leaf_at}
use starkex_data_availabilit.Patricia.Leaves.{
  unify_binary_leaves, unify_edge_leaves, get_leaf_node, get_empty_leaves, get_edge_node_leaves,
  get_child_leaves, get_binary_node_leaves, get_leaves_below,
}
use starkex_data_availabilit.Patricia.Leaves.Bottom.{Bottom, power_pos}
use starkex_data_availabilit.Patricia.Leaves.Lookups.{elem-keep}
use starkex_data_availabilit.Patricia.Leaves.Reads.{
  moved, wanted, Reads, Readable, Reads-binary, Reads-edge, Readable-left, Readable-right,
  Readable-below, get_empty_leaves_lem, only_zero_lem,
}

module _ {L : Type 0} (hash_func : HashFunc) (good : IsHashFunc hash_func) (cls : DbClass L)
    (db : Db) where
  -- A call that returns exactly the leaves at the indices.
  abbrev pub Answer : (ℕ → Bytes) → List ℕ → Option (Dict ℕ L) → Type 0
  Answer leaf_hash is call = (d : Dict ℕ L) × (call ≡ some d) × Reads cls db leaf_hash is d

  -- A call that is right on every tree up to a height.
  abbrev pub Correct : ℕ → (VirtualPatriciaNode → List ℕ → Option (Dict ℕ L)) → Type 0
  Correct bound get =
      (h : ℕ) (t : Tree h) (node : VirtualPatriciaNode) (is : List ℕ)
      → h < bound
      → h < 256
      → IsTree h t
      → Stored hash_func db h t
      → Represents hash_func db h t node
      → Readable cls db (2 ^ h) (leaf_at h t) is
      → Answer (leaf_at h t) is (get node is)

  pub get_leaf_node_lem :
      (t : Bytes) (j : ℕ) (is : List ℕ)
      → Readable cls db 1 (λ i. t) (j ∷ is)
      → Answer (λ i. t) (j ∷ is) (get_leaf_node cls db (from_hash t 0) (j ∷ is))
  unfolding get_leaf_node
  get_leaf_node_lem t j is h =
      let (f, e) = (h j (ground (arith, eqb_iff j j))).1 in
      (
        (0, f) ∷ [],
        rw (only_zero_lem cls db j is (λ i e. (h i e).0), e),
        record { dict = (refl, tt); get = λ i. at f e i },
      )
    where
      at :
          (f : L)
          → get_or_fail cls db t ≡ some f
          → (i : ℕ) → Dict.get ((0, f) ∷ []) i ≡ wanted cls db (λ i. t) (j ∷ is) i
      at f e i =
          let z : j < 1 = (h j (ground (arith, eqb_iff j j))).0 in
          elim (Bool-cases (elem i (j ∷ is))) [
            | inl p ↦ let zi : i < 1 = (h i p).0 in ground (arith, p, e)
            | inr p ↦ ground (arith, p)
          ]

  get_child_leaves_lem :
      (get : VirtualPatriciaNode → List ℕ → Option (Dict ℕ L)) (l r : VirtualPatriciaNode) (m : ℕ)
      (is js : List ℕ) (dl dr : Dict ℕ L)
      → ((node : VirtualPatriciaNode) → get node [] ≡ some [])
      → get l is ≡ some dl
      → get r js ≡ some dr
      → get_child_leaves cls db get l r m is js ≡ some (unify_binary_leaves m dl dr)
  unfolding get_child_leaves
  get_child_leaves_lem get l r m [] js dl dr nil el er = rw er (cc (nil l, el))
  get_child_leaves_lem get l r m (i ∷ is) [] dl dr nil el er = rw el (cc (nil r, er))
  get_child_leaves_lem get l r m (i ∷ is) (j ∷ js) dl dr nil el er = rw (el, er)

  -- On an inner node that is no virtual edge.
  pub get_binary_node_leaves_lem :
      (h : ℕ) (get : VirtualPatriciaNode → List ℕ → Option (Dict ℕ L)) (t : Tree (suc h))
      (node : VirtualPatriciaNode) (is : List ℕ)
      → Correct (suc h) get
      → ((node : VirtualPatriciaNode) → get node [] ≡ some [])
      → node.height ≡ suc h
      → suc h < 256
      → IsTree (suc h) t
      → Stored hash_func db (suc h) t
      → Represents hash_func db (suc h) t node
      → Readable cls db (2 ^ suc h) (leaf_at (suc h) t) is
      → Answer (leaf_at (suc h) t) is (get_binary_node_leaves cls db get node is)
  unfolding get_binary_node_leaves
  get_binary_node_leaves_lem h get t node is ih nil eh small w st rep ok =
      let (l, r, ec, rl, rr) = get_children-Represents hash_func good db h t node small w st rep in
      let dbl : 2 ^ suc h ≡ 2 ^ h + 2 ^ h = two_pow h in
      let ok2 = subst (λ n. Readable cls db n (leaf_at (suc h) t) is) dbl ok in
      let al =
        ih h t.0 l (keep (λ j. ltb j (2 ^ h)) is) (omega arith) (omega (arith, small)) w.0 st.0 rl (
          Readable-left cls db (2 ^ h) is (leaf_at (suc h) t) (leaf_at h t.0) (leaf_at h t.1)
            (λ i. refl) ok2) in
      let ar =
        ih h t.1 r (moved (2 ^ h) (λ j. leb (2 ^ h) j) is) (omega arith) (omega (arith, small)) w.1
          st.1 rr
          (Readable-right cls db (2 ^ h) is (leaf_at (suc h) t) (leaf_at h t.0) (leaf_at h t.1)
            (λ i. refl) ok2) in
      let k : node.height - 1 ≡ h = omega (arith, eh) in
      (
        unify_binary_leaves (2 ^ h) al.0 ar.0,
        rw (k, ec) (get_child_leaves_lem get l r (2 ^ h) _ _ al.0 ar.0 nil al.1 ar.1),
        Reads-binary cls db (2 ^ h) is (leaf_at (suc h) t) (leaf_at h t.0) (leaf_at h t.1) al.0 ar.0
            (λ i. refl) al.2 ar.2,
      )

  -- Where an index is under the path of an edge.
  under_path :
      (path p : ℕ) → 0 < p → (i : ℕ) → (i / p == path) ≡ true → (path * p ≤ i) × (i - path * p < p)
  under_path path p pos i e =
      let q : i / p ≡ path = (eqb_iff (i / p) path).0 e in
      let lo : path * p ≤ i = (le-div_iff_mul-le pos).0 (omega (arith, q)) in
      let hi : i < suc path * p = (div-lt_iff_lt-mul pos).0 (omega (arith, q)) in
      (lo, omega (arith, lo, hi, suc_mul path p))
    where
      suc_mul : (a b : ℕ) → suc a * b ≡ a * b + b
      suc_mul a b = grind arith

  get_edge_node_leaves_calls :
      (get : VirtualPatriciaNode → List ℕ → Option (Dict ℕ L)) (node : VirtualPatriciaNode)
      (is : List ℕ) (k : ℕ) (bottoms empties : Dict ℕ L)
      → node.height - node.length ≡ k
      → leb node.length node.height ≡ true
      → get
          (from_hash node.bottom_node k)
          (moved (node.path * 2 ^ k) (λ i. i / 2 ^ k == node.path) is)
        ≡ some bottoms
      → get_empty_leaves cls db (keep (λ i. not (i / 2 ^ k == node.path)) is) ≡ some empties
      → get_edge_node_leaves cls db get node is
        ≡ some (unify_edge_leaves (node.path * 2 ^ k) bottoms empties)
  unfolding get_edge_node_leaves
  get_edge_node_leaves_calls get node is k bottoms empties ek le eb ee = rw (ek, le, eb, ee)

  -- On a virtual edge.
  pub get_edge_node_leaves_lem :
      (h : ℕ) (get : VirtualPatriciaNode → List ℕ → Option (Dict ℕ L)) (t : Tree h) (is : List ℕ)
      → Correct h get
      → (virtual hash_func h t).length ≢ 0
      → h < 256
      → Bottom hash_func good db h t (virtual hash_func h t)
      → Readable cls db (2 ^ h) (leaf_at h t) is
      → Answer
          (leaf_at h t)
          is
          (get_edge_node_leaves cls db get (node_of h (virtual hash_func h t)) is)
  get_edge_node_leaves_lem h get t is ih n small b ok =
      let e = virtual hash_func h t in
      let k : h - e.length ≡ b.height = omega (arith, b.height_eq) in
      let le : e.length ≤ h = omega (arith, b.height_eq) in
      let p : 0 < 2 ^ b.height = power_pos b.height in
      let m : ℕ = e.path * 2 ^ b.height in
      let test : ℕ → Bool = λ i. i / 2 ^ b.height == e.path in
      let rb =
        ih b.height b.subtree (from_hash e.bottom b.height) (moved m test is)
          (omega (arith, b.height_eq, n)) (omega (arith, b.height_eq, small)) b.leaves b.stored
          (inl (ap (node_of b.height) (sym b.virtual_eq)))
          (Readable-below cls db m (2 ^ h) (2 ^ b.height) test is (leaf_at h t)
            (leaf_at b.height b.subtree) (under_path e.path (2 ^ b.height) p) b.leaf_eq ok) in
      let re =
        get_empty_leaves_lem cls db (keep (λ i. not (test i)) is)
          (λ i p. empty_at i (sym (elem-keep (λ i. not (test i)) is i) ∙ p)) in
      (
        unify_edge_leaves m rb.0 re.0,
        get_edge_node_leaves_calls get (node_of h e) is b.height rb.0 re.0 k
            (leb_true e.length h le) rb.1 re.1,
        Reads-edge cls db m test is (leaf_at h t) (leaf_at b.height b.subtree) rb.0 re.0
            (λ i t. (under_path e.path (2 ^ b.height) p i t).0) (λ i q. b.leaf_eq i (ok i q).0)
            (λ i q. (ok i q).1) rb.2 re.2,
      )
    where
      outside :
          (c : Bool) (x y : Bytes)
          → not c ≡ true
          → x ≡ (if c then y else empty_node_hash)
          → x ≡ empty_node_hash
      outside true x y u e = absurd (cc u)
      outside false x y u e = e

      empty_at :
          (i : ℕ)
          → (elem i is && not (i / 2 ^ b.height == (virtual hash_func h t).path)) ≡ true
          → (f : L) × (get_or_fail cls db empty_node_hash ≡ some f)
      empty_at i p =
          let (q, u) = &&-true (elem i is) _ p in
          let (lt, (f, r)) = ok i q in
          (
            f,
            rw (← outside (i / 2 ^ b.height == (virtual hash_func h t).path) _ _ u (b.leaf_eq i lt))
                r,
          )

      leb_true : (a b : ℕ) → a ≤ b → leb a b ≡ true
      leb_true a b h = ground arith

  pub get_leaves_below-nil :
      (fuel : ℕ) (node : VirtualPatriciaNode) → get_leaves_below cls db fuel node [] ≡ some []
  unfolding get_leaves_below
  get_leaves_below-nil zero node = refl
  get_leaves_below-nil (suc fuel) node = refl

  pub get_leaves_below-leaf :
      (fuel : ℕ) (b : Bytes) (i : ℕ) (is : List ℕ)
      → get_leaves_below cls db (suc fuel) (from_hash b 0) (i ∷ is)
        ≡ get_leaf_node cls db (from_hash b 0) (i ∷ is)
  unfolding get_leaves_below
  get_leaves_below-leaf fuel b i is = refl

  pub get_leaves_below-edge :
      (fuel h : ℕ) (node : VirtualPatriciaNode) (i : ℕ) (is : List ℕ)
      → node.height ≡ suc h
      → (node.length == 0) ≡ false
      → get_leaves_below cls db (suc fuel) node (i ∷ is)
        ≡ get_edge_node_leaves cls db (get_leaves_below cls db fuel) node (i ∷ is)
  unfolding get_leaves_below
  get_leaves_below-edge fuel h node i is eh el = rw (eh, eqb-suc h, el)

  pub get_leaves_below-binary :
      (fuel h : ℕ) (node : VirtualPatriciaNode) (i : ℕ) (is : List ℕ)
      → node.height ≡ suc h
      → (node.length == 0) ≡ true
      → get_leaves_below cls db (suc fuel) node (i ∷ is)
        ≡ get_binary_node_leaves cls db (get_leaves_below cls db fuel) node (i ∷ is)
  unfolding get_leaves_below
  get_leaves_below-binary fuel h node i is eh el = rw (eh, eqb-suc h, el)
