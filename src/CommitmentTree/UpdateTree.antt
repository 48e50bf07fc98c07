-- ===== src/CommitmentTree/UpdateTree.antt =====
-- src/starkware/starkware_utils/commitment_tree/update_tree.py: `build_update_tree` (a copy of it
-- stands in src/starkware/python/merkle_tree.py).
pub mod Layers
pub mod Correct
use starkex_data_availabilit.Prelude.{
  ℕ, zero, suc, ◌+◌, ◌*◌, ◌/◌, Bool, true, false, ◌||◌, Option, none, some, List, [], ◌∷◌, map,
  ◌==◌, ℕ_eq, if◌then◌else◌,
}
use starkex_data_availabilit.Prelude.Dict.{Dict}
use starkex_data_availabilit.Prelude.Dict

-- Optional[Union[Tuple[Any, Any], LeafFact]]
pub data UpdateTree (L : Type 0) : Type 0 where
  no_update : UpdateTree L
  leaf : L → UpdateTree L
  pair : UpdateTree L → UpdateTree L → UpdateTree L

abbrev pub elem : ℕ → List ℕ → Bool
elem i [] = false
elem i (j ∷ js) = (j == i) || elem i js

-- `set(js)`; the order of a Python set does not matter here.
abbrev pub dedup : List ℕ → List ℕ
dedup [] = []
dedup (j ∷ js) = let rest = dedup js in if elem j js then rest else j ∷ rest

module _ {L : Type 0} where
  -- `layer.get(index)`
  abbrev pub child : Dict ℕ (UpdateTree L) → ℕ → UpdateTree L
  child layer index = elim (Dict.get layer index) [ none ↦ no_update | some t ↦ t ]

  unfoldable pub parents : Dict ℕ (UpdateTree L) → List ℕ
  parents layer = dedup (map (λ i. i / 2) (Dict.keys layer))

  -- One round of the loop over the height.
  unfoldable pub next_layer : Dict ℕ (UpdateTree L) → Dict ℕ (UpdateTree L)
  next_layer layer =
      map (λ index. (index, pair (child layer (index * 2)) (child layer (index * 2 + 1))))
        (parents layer)

  unfoldable pub climb : ℕ → Dict ℕ (UpdateTree L) → Dict ℕ (UpdateTree L)
  climb zero layer = layer
  climb (suc height) layer = climb height (next_layer layer)

  -- `assert len(layer) == 1; return layer[0]`
  unfoldable pub only_root : Dict ℕ (UpdateTree L) → Option (UpdateTree L)
  only_root [] = none
  only_root ((k, t) ∷ []) = if k == 0 then some t else none
  only_root (a ∷ b ∷ layer) = none

  unfoldable pub bottom_layer : List (ℕ × L) → Dict ℕ (UpdateTree L)
  bottom_layer modifications = Dict.update [] (map (λ m. (m.0, leaf m.1)) modifications)

  unfoldable pub build_update_tree : ℕ → List (ℕ × L) → Option (UpdateTree L)
  build_update_tree height [] = some no_update
  build_update_tree height (m ∷ ms) = only_root (climb height (bottom_layer (m ∷ ms)))
