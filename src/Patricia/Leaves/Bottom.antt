-- ===== src/Patricia/Leaves/Bottom.antt =====
-- The subtree below the edge at the root of a tree.
use starkex_data_availabilit.Prelude.{
  ℕ, zero, suc, ◌+◌, ◌-◌, ◌*◌, ◌/◌, ◌^◌, ◌<◌, ◌≤◌, ◌≡◌, refl, sym, ap, ◌∙◌, arith, Bool, true,
  false, ltb, ◌==◌, ℕ_eq, if◌then◌else◌, lt_or_ge, lt→ltb, ltb-false, inl, inr, subst, ap₂,
}
use native.Mathlib.Nat.{pow-suc, div-lt_iff_lt-mul, add-mul-div_right, one-le-pow}
use starkex_data_availabilit.Bytes.{Bytes}
use starkex_data_availabilit.CommitmentTree.UpdateTree.Correct.{two_pow}
use starkex_data_availabilit.Storage.{Db}
use starkex_data_availabilit.Patricia.Nodes.{HashFunc, empty_node_hash}
use starkex_data_availabilit.Patricia.Spec.{Tree, Edge, no_edge, virtual, IsTree, IsHashFunc}
use starkex_data_availabilit.Patricia.Spec.Bounds.{
  virtual-IsEdge, JoinCases, both_empty, only_right, only_left, both, join-cases, join-empty,
  children_nonzero,
}
use starkex_data_availabilit.Patricia.VirtualNode.Represents.{Stored}
use starkex_data_availabilit.Patricia.Update.{leaf_at}

pub pow_add : (k n : ℕ) → 2 ^ (k + n) ≡ 2 ^ n * 2 ^ k
pow_add k zero = let e : k + zero ≡ k = omega arith in ap (λ m. 2 ^ m) e ∙ omega arith
pow_add k (suc n) =
    let e : k + suc n ≡ suc (k + n) = omega arith in
    ap (λ m. 2 ^ m) e
    ∙ pow-suc 2 (k + n)
    ∙ ap (λ m. m * 2) (pow_add k n)
    ∙ regroup (2 ^ n) (2 ^ k)
    ∙ ap (λ m. m * 2 ^ k) (sym (pow-suc 2 n))
  where
    regroup : (a b : ℕ) → a * b * 2 ≡ a * 2 * b
    regroup a b = grind arith

pub div_below : (i r k : ℕ) → 0 < k → i < r * k → i / k < r
div_below i r k pos lt = (div-lt_iff_lt-mul pos).1 lt

pub div_above : (i r k : ℕ) → 0 < k → r * k ≤ i → (i - r * k) / k + r ≡ i / k
div_above i r k pos le = sym (add-mul-div_right (i - r * k) r pos) ∙ ap (λ n. n / k) (omega arith)

pub power_pos : (k : ℕ) → 0 < 2 ^ k
power_pos k = one-le-pow k 2 (omega arith)

-- The test on the path, below and above the middle.
below_path : (i path r k : ℕ) → 0 < k → i < r * k → (i / k == path + r) ≡ false
below_path i path r k pos lt = ground (arith, div_below i r k pos lt)

above_path : (i path r k : ℕ) → 0 < k → r * k ≤ i → ((i - r * k) / k == path) ≡ (i / k == path + r)
above_path i path r k pos le = ground (arith, div_above i r k pos le)

outside_path : (i path r k : ℕ) → 0 < k → r * k ≤ i → path < r → (i / k == path) ≡ false
outside_path i path r k pos le lt = ground (arith, div_above i r k pos le)

-- The leaf hash below an edge with the given path, over a subtree of height `k`.
abbrev pub leaf_below : (k : ℕ) → ℕ → Tree k → ℕ → Bytes
leaf_below k path s i =
    if i / 2 ^ k == path then leaf_at k s (i - path * 2 ^ k) else empty_node_hash

module _ (hash_func : HashFunc) (good : IsHashFunc hash_func) (db : Db) where
  -- The leaves of an empty tree.
  leaf_at-empty :
      (h : ℕ) (t : Tree h) (i : ℕ)
      → IsTree h t
      → (virtual hash_func h t).bottom ≡ empty_node_hash
      → leaf_at h t i ≡ empty_node_hash
  unfolding virtual
  leaf_at-empty zero t i w p = p
  leaf_at-empty (suc h) t i w p =
      let l = virtual hash_func h t.0 in
      let r = virtual hash_func h t.1 in
      let (pl, pr) =
        join-empty hash_func l r _ (children_nonzero hash_func good h t w)
          (join-cases hash_func l r) p in
      in_half (ltb i (2 ^ h)) (leaf_at-empty h t.0 i w.0 pl)
        (leaf_at-empty h t.1 (i - 2 ^ h) w.1 pr)
    where
      in_half :
          (b : Bool) {x y : Bytes}
          → x ≡ empty_node_hash
          → y ≡ empty_node_hash
          → (if b then x else y) ≡ empty_node_hash
      in_half true p q = p
      in_half false p q = q

  -- The subtree of height `height` under the edge `e` at the top of a tree.
  pub record Bottom (h : ℕ) (t : Tree h) (e : Edge) : Type 0 where
    pub height : ℕ
    pub subtree : Tree height
    pub height_eq : height + e.length ≡ h
    pub virtual_eq : virtual hash_func height subtree ≡ no_edge e.bottom
    pub leaves : IsTree height subtree
    pub stored : Stored hash_func db height subtree
    pub leaf_eq : (i : ℕ) → i < 2 ^ h → leaf_at h t i ≡ leaf_below height e.path subtree i

  whole_leaf : (h : ℕ) (t : Tree h) (i : ℕ) → i < 2 ^ h → leaf_at h t i ≡ leaf_below h 0 t i
  whole_leaf h t i lt =
      let d : i / 2 ^ h ≡ 0 = zero_div i (2 ^ h) lt in
      let s : i - 0 * 2 ^ h ≡ i = omega arith in rw (d, s)
    where
      zero_div : (i p : ℕ) → i < p → i / p ≡ 0
      zero_div i p lt = grind arith

  -- Where no edge is at the top, the subtree is the tree.
  whole :
      (h : ℕ) (t : Tree h) (b : Bytes)
      → virtual hash_func h t ≡ no_edge b
      → IsTree h t
      → Stored hash_func db h t
      → Bottom h t (no_edge b)
  whole h t b e w st = record {
    height = h;
    subtree = t;
    height_eq = omega arith;
    virtual_eq = e;
    leaves = w;
    stored = st;
    leaf_eq = whole_leaf h t;
  }

  right_leaf :
      (h k n : ℕ) (t : Tree (suc h)) (s : Tree k) (path i : ℕ)
      → k + n ≡ h
      → leaf_at h t.0 i ≡ empty_node_hash
      → (i - 2 ^ h < 2 ^ h → leaf_at h t.1 (i - 2 ^ h) ≡ leaf_below k path s (i - 2 ^ h))
      → i < 2 ^ suc h
      → leaf_at (suc h) t i ≡ leaf_below k (path + 2 ^ n) s i
  right_leaf h k n t s path i e pl ih lt =
      let p : 2 ^ n * 2 ^ k ≡ 2 ^ h = sym (pow_add k n) ∙ ap (λ m. 2 ^ m) e in
      elim (lt_or_ge i (2 ^ h)) [
        | inl low ↦
            rw
              (
                lt→ltb i (2 ^ h) low,
                below_path i path (2 ^ n) (2 ^ k) (power_pos k) (omega (arith, p)),
              )
              pl
        | inr high ↦
            let q = above_path i path (2 ^ n) (2 ^ k) (power_pos k) (omega (arith, p)) in
            rw (ltb-false i (2 ^ h) high) (
              ih (omega (arith, two_pow h))
              ∙ ap₂ (λ (b : Bool) (m : ℕ). if b then leaf_at k s m else empty_node_hash)
                  (ap (λ m. (i - m) / 2 ^ k == path) (sym p) ∙ q)
                  (regroup i path (2 ^ n) (2 ^ k) (2 ^ h) p))
      ]
    where
      regroup : (i path r k m : ℕ) → r * k ≡ m → i - m - path * k ≡ i - (path + r) * k
      regroup i path r k m e = grind arith

  left_leaf :
      (h k n : ℕ) (t : Tree (suc h)) (s : Tree k) (path i : ℕ)
      → k + n ≡ h
      → path < 2 ^ n
      → leaf_at h t.1 (i - 2 ^ h) ≡ empty_node_hash
      → (i < 2 ^ h → leaf_at h t.0 i ≡ leaf_below k path s i)
      → leaf_at (suc h) t i ≡ leaf_below k path s i
  left_leaf h k n t s path i e small pr ih =
      let p : 2 ^ n * 2 ^ k ≡ 2 ^ h = sym (pow_add k n) ∙ ap (λ m. 2 ^ m) e in
      elim (lt_or_ge i (2 ^ h)) [
        | inl low ↦ rw (lt→ltb i (2 ^ h) low) (ih low)
        | inr high ↦
            rw
              (
                ltb-false i (2 ^ h) high,
                outside_path i path (2 ^ n) (2 ^ k) (power_pos k) (omega (arith, p)) small,
              )
              pr
      ]

  Bottom-by_cases :
      (h : ℕ) (t : Tree (suc h)) (j : Edge)
      → IsTree (suc h) t
      → Stored hash_func db (suc h) t
      → virtual hash_func (suc h) t ≡ j
      → JoinCases hash_func (virtual hash_func h t.0) (virtual hash_func h t.1) j
      → Bottom h t.0 (virtual hash_func h t.0)
      → Bottom h t.1 (virtual hash_func h t.1)
      → Bottom (suc h) t j
  Bottom-by_cases h t j w st e (both_empty pl pr pj) bl br =
      subst (Bottom (suc h) t) (sym pj) (whole (suc h) t _ (e ∙ pj) w st)
  Bottom-by_cases h t j w st e (both nl nr pj) bl br =
      subst (Bottom (suc h) t) (sym pj) (whole (suc h) t _ (e ∙ pj) w st)
  Bottom-by_cases h t j w st e (only_right pl nr pj) bl br =
      subst (Bottom (suc h) t) (sym pj) (record {
        height = br.height;
        subtree = br.subtree;
        height_eq = omega (arith, br.height_eq);
        virtual_eq = br.virtual_eq;
        leaves = br.leaves;
        stored = br.stored;
        leaf_eq = λ i lt.
            right_leaf h br.height (virtual hash_func h t.1).length t br.subtree
              (virtual hash_func h t.1).path i br.height_eq (leaf_at-empty h t.0 i w.0 pl)
              (br.leaf_eq (i - 2 ^ h)) lt;
      })
  Bottom-by_cases h t j w st e (only_left nl pr pj) bl br =
      subst (Bottom (suc h) t) (sym pj) (record {
        height = bl.height;
        subtree = bl.subtree;
        height_eq = omega (arith, bl.height_eq);
        virtual_eq = bl.virtual_eq;
        leaves = bl.leaves;
        stored = bl.stored;
        leaf_eq = λ i lt.
            left_leaf h bl.height (virtual hash_func h t.0).length t bl.subtree
              (virtual hash_func h t.0).path i bl.height_eq
              (virtual-IsEdge hash_func good h t.0 w.0).path
              (leaf_at-empty h t.1 (i - 2 ^ h) w.1 pr) (bl.leaf_eq i);
      })

  -- A stored tree is the edge at its top over a stored subtree: at the indices under the edge's
  -- path it has the leaves of the subtree, and empty leaves elsewhere.
  pub bottom_lem :
      (h : ℕ) (t : Tree h)
      → IsTree h t
      → Stored hash_func db h t
      → Bottom h t (virtual hash_func h t)
  unfolding virtual
  bottom_lem zero t w st = whole zero t t refl w st
  bottom_lem (suc h) t w st =
      Bottom-by_cases h t _ w st refl (join-cases hash_func _ _) (bottom_lem h t.0 w.0 st.0)
        (bottom_lem h t.1 w.1 st.1)
