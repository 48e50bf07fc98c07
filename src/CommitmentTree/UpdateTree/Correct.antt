-- ===== src/CommitmentTree/UpdateTree/Correct.antt =====
-- `build_update_tree` gives every leaf its last modification, at the depth of the tree.
use starkex_data_availabilit.Prelude.{
  ℕ, zero, suc, ◌+◌, ◌-◌, ◌*◌, ◌^◌, ◌<◌, ◌≤◌, ◌≡◌, ◌⊎◌, ◌≢◌, refl, Option, none, some, List, [],
  ◌∷◌, map, ℕ_eq, if◌then◌else◌, arith, ltb, lt→ltb, ltb-false, All, ap, sym, ◌∙◌, inl, inr,
  lt_or_ge,
}
use native.Mathlib.Nat.{pow-suc}
use starkex_data_availabilit.Prelude.Dict.{Dict, IsDict, update-IsDict, get-update}
use starkex_data_availabilit.Prelude.Dict
use starkex_data_availabilit.CommitmentTree.UpdateTree.{
  UpdateTree, no_update, leaf, pair, child, next_layer, climb, only_root, bottom_layer,
  build_update_tree,
}
use starkex_data_availabilit.CommitmentTree.UpdateTree.Layers.{next_layer-IsDict, get-next_layer}

pub two_pow : (k : ℕ) → 2 ^ suc k ≡ 2 ^ k + 2 ^ k
two_pow k = omega (arith, pow-suc 2 k)

module _ {L : Type 0} where
  -- The modification that an update tree of the given height holds for a leaf.
  abbrev pub update_at : UpdateTree L → ℕ → ℕ → Option L
  update_at no_update h i = none
  update_at (leaf x) zero i = some x
  update_at (leaf x) (suc h) i = none
  update_at (pair l r) zero i = none
  update_at (pair l r) (suc h) i =
      if ltb i (2 ^ h) then update_at l h i else update_at r h (i - 2 ^ h)

  -- Leaves stand at the bottom, and pairs above it.
  abbrev pub HasDepth : UpdateTree L → ℕ → Type 0
  HasDepth no_update h = Unit
  HasDepth (leaf x) zero = Unit
  HasDepth (leaf x) (suc h) = ⊥
  HasDepth (pair l r) zero = ⊥
  HasDepth (pair l r) (suc h) = HasDepth l h × HasDepth r h

  record IsLayer (mods : List (ℕ × L)) (k : ℕ) (layer : Dict ℕ (UpdateTree L)) : Type 0 where
    lookups :
        (j i : ℕ) → i < 2 ^ k → update_at (child layer j) k i ≡ Dict.last_of mods (j * 2 ^ k + i)
    depth : (j : ℕ) → HasDepth (child layer j) k

  child_lookup :
      (mods : List (ℕ × L)) (k p : ℕ) (l r : UpdateTree L) (j i : ℕ)
      → (i < p → update_at l k i ≡ Dict.last_of mods (j * 2 * p + i))
      → ((i - p) < p → update_at r k (i - p) ≡ Dict.last_of mods ((j * 2 + 1) * p + (i - p)))
      → i < p + p
      → (if ltb i p then update_at l k i else update_at r k (i - p))
        ≡ Dict.last_of mods (j * (p + p) + i)
  child_lookup mods k p l r j i hl hr h = elim (lt_or_ge i p) [
    | inl low ↦ rw (lt→ltb i p low) (hl low ∙ ap (Dict.last_of mods) (omega arith))
    | inr high ↦ rw (ltb-false i p high) (hr (omega arith) ∙ ap (Dict.last_of mods) (omega arith))
  ]

  next_lookup :
      (mods : List (ℕ × L)) (k : ℕ) (layer : Dict ℕ (UpdateTree L)) (j i : ℕ)
      → IsLayer mods k layer
      → i < 2 ^ suc k
      → update_at (pair (child layer (j * 2)) (child layer (j * 2 + 1))) (suc k) i
        ≡ Dict.last_of mods (j * 2 ^ suc k + i)
  next_lookup mods k layer j i h lt = rw (two_pow k) (
      child_lookup mods k (2 ^ k) (child layer (j * 2)) (child layer (j * 2 + 1)) j i
        (h.lookups (j * 2) i) (h.lookups (j * 2 + 1) (i - 2 ^ k)) (rw (two_pow k) at lt))

  no_updates :
      (a b : UpdateTree L) (k i : ℕ) (o : Option L)
      → a ≡ no_update
      → b ≡ no_update
      → update_at (pair a b) (suc k) i ≡ o
      → none ≡ o
  no_updates a b k i o p q h = ground (arith)

  child-next_layer :
      (layer : Dict ℕ (UpdateTree L)) (j : ℕ)
      → (child (next_layer layer) j ≡ pair (child layer (j * 2)) (child layer (j * 2 + 1)))
        ⊎ ((child (next_layer layer) j ≡ no_update)
            × (child layer (j * 2) ≡ no_update)
            × (child layer (j * 2 + 1) ≡ no_update))
  child-next_layer layer j = ground (arith, get-next_layer layer j)

  next_layer-IsLayer :
      (mods : List (ℕ × L)) (k : ℕ) (layer : Dict ℕ (UpdateTree L))
      → IsLayer mods k layer
      → IsLayer mods (suc k) (next_layer layer)
  next_layer-IsLayer mods k layer h = record {
    lookups = λ j i lt. elim (child-next_layer layer j) [
      | inl e ↦ rw e (next_lookup mods k layer j i h lt)
      | inr (e, p, q) ↦ rw e (no_updates _ _ k i _ p q (next_lookup mods k layer j i h lt))
    ];
    depth = λ j. elim (child-next_layer layer j) [
      | inl e ↦ rw e (h.depth (j * 2), h.depth (j * 2 + 1))
      | inr (e, p, q) ↦ rw e tt
    ];
  }

  climb-IsLayer :
      (mods : List (ℕ × L)) (n k m : ℕ) (layer : Dict ℕ (UpdateTree L))
      → n + k ≡ m
      → IsLayer mods k layer
      → IsLayer mods m (climb n layer)
  unfolding climb
  climb-IsLayer mods zero k m layer e h = let e' : k ≡ m = omega arith in rw (← e') h
  climb-IsLayer mods (suc n) k m layer e h =
      climb-IsLayer mods n (suc k) m (next_layer layer) (omega arith)
        (next_layer-IsLayer mods k layer h)

  last_of-leaf :
      (mods : List (ℕ × L)) (j : ℕ)
      → Dict.last_of (map (λ m. (m.0, leaf m.1)) mods) j
        ≡ elim (Dict.last_of mods j) [ none ↦ none | some x ↦ some (leaf x) ]
  last_of-leaf [] j = refl
  last_of-leaf ((i, x) ∷ mods) j = ground (arith, last_of-leaf mods j)

  get-bottom_layer :
      (mods : List (ℕ × L)) (j : ℕ)
      → Dict.get (bottom_layer mods) j
        ≡ elim (Dict.last_of mods j) [ none ↦ none | some x ↦ some (leaf x) ]
  unfolding bottom_layer
  get-bottom_layer mods j =
      ground
        (arith, get-update [] (map (λ (m : ℕ × L). (m.0, leaf m.1)) mods) j, last_of-leaf mods j)

  bottom_layer-IsLayer : (mods : List (ℕ × L)) → IsLayer mods zero (bottom_layer mods)
  bottom_layer-IsLayer mods = record {
    lookups = λ j i lt. bottom_lookup mods j i (omega arith);
    depth = λ j. ground (arith, get-bottom_layer mods j);
  }
    where
      bottom_lookup :
          (mods : List (ℕ × L)) (j i : ℕ)
          → i ≡ 0
          → update_at (child (bottom_layer mods) j) zero i ≡ Dict.last_of mods (j * 1 + i)
      bottom_lookup mods j i e =
          let e' : j * 1 + i ≡ j = omega arith in rw e' (ground (arith, get-bottom_layer mods j))

  -- No key of the layer reaches `n`.
  abbrev Below : ℕ → Dict ℕ (UpdateTree L) → Type 0
  Below n layer = (j : ℕ) → n ≤ j → Dict.get layer j ≡ none

  next_layer-Below :
      (n : ℕ) (layer : Dict ℕ (UpdateTree L)) → Below (n + n) layer → Below n (next_layer layer)
  next_layer-Below n layer h j le =
      ground (arith, get-next_layer layer j, h (j * 2) (omega arith), h (j * 2 + 1) (omega arith))

  climb-Below :
      (h : ℕ) (layer : Dict ℕ (UpdateTree L)) → Below (2 ^ h) layer → Below 1 (climb h layer)
  unfolding climb
  climb-Below zero layer b = b
  climb-Below (suc h) layer b =
      climb-Below h (next_layer layer) (next_layer-Below (2 ^ h) layer (rw (← two_pow h) b))

  climb-IsDict : (h : ℕ) (layer : Dict ℕ (UpdateTree L)) → IsDict layer → IsDict (climb h layer)
  unfolding climb
  climb-IsDict zero layer d = d
  climb-IsDict (suc h) layer d = climb-IsDict h (next_layer layer) (next_layer-IsDict layer)

  only_root_lem :
      (layer : Dict ℕ (UpdateTree L))
      → IsDict layer
      → Below 1 layer
      → layer ≢ []
      → only_root layer ≡ some (child layer 0)
  unfolding only_root
  only_root_lem [] d b ne = absurd (ne refl)
  only_root_lem ((k, t) ∷ []) d b ne = ground (arith, b k)
  only_root_lem ((k, t) ∷ (k', t') ∷ layer) d b ne = ground (arith, b k, b k')

  -- Every index of a modification is a leaf of a tree of height `h`.
  abbrev pub InRange : ℕ → List (ℕ × L) → Type 0
  InRange h = All (λ m. m.0 < 2 ^ h)

  last_of-Below :
      (n : ℕ) (mods : List (ℕ × L)) (j : ℕ)
      → All (λ m. m.0 < n) mods
      → n ≤ j
      → Dict.last_of mods j ≡ none
  last_of-Below n [] j r le = refl
  last_of-Below n (m ∷ mods) j r le = ground (arith, last_of-Below n mods j r.1 le)

  bottom_layer-Below :
      (h : ℕ) (mods : List (ℕ × L)) → InRange h mods → Below (2 ^ h) (bottom_layer mods)
  bottom_layer-Below h mods r j le =
      ground (arith, get-bottom_layer mods j, last_of-Below (2 ^ h) mods j r le)

  -- The first index of a list has some last modification.
  last_of_head : (m : ℕ × L) (mods : List (ℕ × L)) → Dict.last_of (m ∷ mods) m.0 ≢ none
  last_of_head m mods e = ground arith

  top_nonempty :
      (h : ℕ) (m : ℕ × L) (ms : List (ℕ × L)) (layer : Dict ℕ (UpdateTree L))
      → m.0 < 2 ^ h
      → IsLayer (m ∷ ms) h layer
      → layer ≢ []
  top_nonempty h m ms [] lt il e =
      last_of_head m ms (ap (Dict.last_of (m ∷ ms)) (omega arith) ∙ sym (il.lookups 0 m.0 lt))
  top_nonempty h m ms (x ∷ layer) lt il e = cc

  -- For modifications whose indices lie below `2 ^ h`, `build_update_tree` returns a tree. All its
  -- leaves stand at depth `h`, and at each index it holds the last modification of that index, or
  -- nothing where the list has none.
  pub build_update_tree_lem :
      (h : ℕ) (mods : List (ℕ × L))
      → InRange h mods
      → (t : UpdateTree L) × (build_update_tree h mods ≡ some t)
        × HasDepth t h
        × ((i : ℕ) → i < 2 ^ h → update_at t h i ≡ Dict.last_of mods i)
  unfolding build_update_tree
  build_update_tree_lem h [] r = (no_update, refl, tt, λ i lt. refl)
  build_update_tree_lem h (m ∷ ms) r =
      let top = climb h (bottom_layer (m ∷ ms)) in
      let il : IsLayer (m ∷ ms) h top =
        climb-IsLayer (m ∷ ms) h zero h (bottom_layer (m ∷ ms)) (omega arith)
          (bottom_layer-IsLayer (m ∷ ms)) in
      (
        child top 0,
        only_root_lem top
            (climb-IsDict h (bottom_layer (m ∷ ms)) (
              unfold bottom_layer in
              update-IsDict [] (map (λ (m : ℕ × L). (m.0, leaf m.1)) (m ∷ ms)) tt))
            (climb-Below h (bottom_layer (m ∷ ms)) (bottom_layer-Below h (m ∷ ms) r))
            (top_nonempty h m ms top r.0 il),
        il.depth 0,
        λ i lt. il.lookups 0 i lt ∙ ap (Dict.last_of (m ∷ ms)) (omega arith),
      )
