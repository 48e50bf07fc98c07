-- ===== src/CommitmentTree/Traversal/Queue.antt =====
-- The queue's side of the invariant, and what taking an item leaves.
use starkex_data_availabilit.Prelude.{
  ℕ, zero, suc, ◌+◌, ◌*◌, ◌^◌, ◌≤◌, ◌≡◌, true, false, Option, some, List, [], ◌∷◌, ◌==◌, ℕ_eq,
  arith, refl, All, ◌||◌,
}
use Prim.Native.Nat.{max}
use starkex_data_availabilit.CommitmentTree.UpdateTree.{UpdateTree, no_update, leaf, pair, elem}
use starkex_data_availabilit.CommitmentTree.Traversal.{
  TreeOps, NodeType, take_item, updated_calculation,
}
use starkex_data_availabilit.CommitmentTree.Traversal.Ghost.{Status, is_queued}

abbrev pub depth : {L : Type 0} → UpdateTree L → ℕ
depth no_update = 0
depth (leaf x) = 0
depth (pair l r) = suc (max (depth l) (depth r))

-- The visits that an update takes.
abbrev pub weight : {L : Type 0} → UpdateTree L → ℕ
weight no_update = 1
weight (leaf x) = 1
weight (pair l r) = 1 + weight l + weight r

abbrev pub total : {N L : Type 0} → List (NodeType N L) → ℕ
total [] = 0
total (x ∷ q) = weight x.update + total q

abbrev pub indices : {N L : Type 0} → List (NodeType N L) → List ℕ
indices [] = []
indices (x ∷ q) = x.index ∷ indices q

-- No index is listed twice.
abbrev pub Distinct : List ℕ → Type 0
Distinct [] = Unit
Distinct (j ∷ js) = (elem j js ≡ false) × Distinct js

module _ {N C L : Type 0} (ops : TreeOps N C L) where
  pub record ItemOk (st : ℕ → Status) (v : ℕ → Option C) (bound : ℕ) (x : NodeType N L)
      : Type 0 where
    pub status : is_queued (st x.index) ≡ true
    pub value : C
    pub runs : updated_calculation ops x.tree x.update ≡ some value
    pub ghost : v x.index ≡ some value
    pub fits : (x.index + 1) * 2 ^ depth x.update ≤ bound

  pub record QueueOk (st : ℕ → Status) (v : ℕ → Option C) (bound : ℕ) (q : List (NodeType N L))
      : Type 0 where
    pub items : All (ItemOk st v bound) q
    pub listed : (i : ℕ) → is_queued (st i) ≡ elem i (indices q)
    pub distinct : Distinct (indices q)

module _ {N L : Type 0} where
  pub take_item-All :
      (P : NodeType N L → Type 0) (n : ℕ) (x : NodeType N L) (q : List (NodeType N L))
      → All P (x ∷ q)
      → P (take_item n x q).0 × All P (take_item n x q).1
  take_item-All P n x [] h = h
  take_item-All P zero x (y ∷ q) h = h
  take_item-All P (suc n) x (y ∷ q) h = let (a, b) = take_item-All P n y q h.1 in (a, (h.0, b))

  pub take_item-elem :
      (i n : ℕ) (x : NodeType N L) (q : List (NodeType N L))
      → elem i (indices (x ∷ q))
        ≡ ((take_item n x q).0.index == i || elem i (indices (take_item n x q).1))
  take_item-elem i n x [] = refl
  take_item-elem i zero x (y ∷ q) = refl
  take_item-elem i (suc n) x (y ∷ q) = ground (arith, take_item-elem i n y q)

  pub take_item-Distinct :
      (n : ℕ) (x : NodeType N L) (q : List (NodeType N L))
      → Distinct (indices (x ∷ q))
      → (elem (take_item n x q).0.index (indices (take_item n x q).1) ≡ false)
        × Distinct (indices (take_item n x q).1)
  take_item-Distinct n x [] h = h
  take_item-Distinct zero x (y ∷ q) h = h
  take_item-Distinct (suc n) x (y ∷ q) h =
      ground (arith, take_item-Distinct n y q h.1, take_item-elem x.index n y q)

  pub take_item-total :
      (n : ℕ) (x : NodeType N L) (q : List (NodeType N L))
      → total (x ∷ q) ≡ weight (take_item n x q).0.update + total (take_item n x q).1
  take_item-total n x [] = refl
  take_item-total zero x (y ∷ q) = refl
  take_item-total (suc n) x (y ∷ q) = omega (arith, take_item-total n y q)
