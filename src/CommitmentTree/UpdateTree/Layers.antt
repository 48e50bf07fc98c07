-- ===== src/CommitmentTree/UpdateTree/Layers.antt =====
-- One layer of `build_update_tree`: what the next layer holds at each index.
use starkex_data_availabilit.Prelude.{
  ℕ, ◌+◌, ◌*◌, ◌/◌, ◌≡◌, refl, ◌||◌, none, some, List, [], ◌∷◌, map, ℕ_eq, if◌then◌else◌, arith,
}
use starkex_data_availabilit.Prelude.Dict.{Dict, IsDict}
use starkex_data_availabilit.Prelude.Dict
use starkex_data_availabilit.CommitmentTree.UpdateTree.{
  UpdateTree, pair, elem, dedup, child, parents, next_layer,
}

elem-dedup : (j : ℕ) (js : List ℕ) → elem j (dedup js) ≡ elem j js
elem-dedup j [] = refl
elem-dedup j (i ∷ js) = ground (arith, elem-dedup j js)

elem-halves :
    {V : Type 0} (j : ℕ) (d : Dict ℕ V)
    → elem j (map (λ i. i / 2) (Dict.keys d)) ≡ (Dict.has d (j * 2) || Dict.has d (j * 2 + 1))
elem-halves j [] = refl
elem-halves j ((i, v) ∷ d) = ground (arith, elem-halves j d)

get-map :
    {V : Type 0} (f : ℕ → V) (js : List ℕ) (j : ℕ)
    → Dict.get (map (λ i. (i, f i)) js) j ≡ (if elem j js then some (f j) else none)
get-map f [] j = refl
get-map f (i ∷ js) j = ground (arith, get-map f js j)

map-IsDict : {V : Type 0} (f : ℕ → V) (js : List ℕ) → IsDict (map (λ i. (i, f i)) (dedup js))
map-IsDict f [] = tt
map-IsDict f (j ∷ js) = ground (arith, map-IsDict f js, get-map f (dedup js) j, elem-dedup j js)

module _ {L : Type 0} where
  pub next_layer-IsDict : (layer : Dict ℕ (UpdateTree L)) → IsDict (next_layer layer)
  unfolding next_layer parents
  next_layer-IsDict layer = map-IsDict _ (map (λ i. i / 2) (Dict.keys layer))

  pub get-next_layer :
      (layer : Dict ℕ (UpdateTree L)) (j : ℕ)
      → Dict.get (next_layer layer) j ≡ (
          if Dict.has layer (j * 2) || Dict.has layer (j * 2 + 1)
          then some (pair (child layer (j * 2)) (child layer (j * 2 + 1)))
          else none)
  unfolding next_layer parents
  get-next_layer layer j = ground (
    arith,
    get-map (λ i. pair (child layer (i * 2)) (child layer (i * 2 + 1)))
        (dedup (map (λ i. i / 2) (Dict.keys layer))) j,
    elem-dedup j (map (λ i. i / 2) (Dict.keys layer)),
    elem-halves j layer,
  )
