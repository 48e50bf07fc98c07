-- ===== src/Prelude/Dict/Writes.antt =====
-- Lists of pairs that are written into a dictionary, and when such writes lose nothing.
use mathlib.Core.Path.{◌≡◌, refl, sym, ◌∙◌, ap}
use mathlib.Core.Logic.{◌⊎◌, inl, inr, ◌≢◌}
use mathlib.Core.Option.{none, some}
use mathlib.Core.List.{List, [], ◌∷◌, ◌++◌, map}
use native.Mathlib.Omega.{arith}
use starkex_data_availabilit.Prelude.Tests.{Eq, ◌==◌, Option-cases, Bool-cases}
use starkex_data_availabilit.Prelude.Dict.{
  Dict, get, update, last_of, get-update, IsDict, update-IsDict,
}

-- The pair stands in the list.
abbrev pub Listed : {K V : Type 0} → K → V → List (K × V) → Type 0
Listed k v [] = ⊥
Listed k v ((j, w) ∷ m) = ((j ≡ k) × (w ≡ v)) ⊎ Listed k v m

module _ {K V : Type 0} ⦃e : Eq K⦄ where
  -- Pairs with one key agree, also with the dictionary that they are written into.
  pub record NoClash (d : Dict K V) (m : List (K × V)) : Type 0 where
    pub among : (k : K) (v w : V) → Listed k v m → Listed k w m → v ≡ w
    pub old : (k : K) (v w : V) → Listed k v m → get d k ≡ some w → v ≡ w

  last_of-Listed : (m : List (K × V)) (k : K) (v : V) → last_of m k ≡ some v → Listed k v m
  last_of-Listed [] k v h = cc h
  last_of-Listed ((j, w) ∷ m) k v h =
      let rec = last_of-Listed m k v in ground (arith, e.beq_iff j k)

  Listed-last_of :
      (m : List (K × V)) (k : K) (v : V) → Listed k v m → (w : V) × (last_of m k ≡ some w)
  Listed-last_of [] k v l = absurd l
  Listed-last_of ((j, x) ∷ m) k v (inl (p, q)) = elim (Option-cases (last_of m k)) [
    | inl n ↦ (x, ground (arith, e.beq_iff j k))
    | inr (w, s) ↦ (w, ground arith)
  ]
  Listed-last_of ((j, x) ∷ m) k v (inr l) = let (w, s) = Listed-last_of m k v l in (w, ground arith)

  -- A dictionary keeps its entries.
  pub get-update_old :
      (d : Dict K V) (m : List (K × V)) (k : K) (v : V)
      → NoClash d m
      → get d k ≡ some v
      → get (update d m) k ≡ some v
  get-update_old d m k v nc h = elim (Option-cases (last_of m k)) [
    | inl n ↦ ground (arith, get-update d m k)
    | inr (w, s) ↦
        let same = nc.old k w v (last_of-Listed m k w s) h in ground (arith, get-update d m k)
  ]

  -- Every pair that was written is found.
  pub get-update_new :
      (d : Dict K V) (m : List (K × V)) (k : K) (v : V)
      → NoClash d m
      → Listed k v m
      → get (update d m) k ≡ some v
  get-update_new d m k v nc l =
      let (w, s) = Listed-last_of m k v l in
      let same = nc.among k w v (last_of-Listed m k w s) l in ground (arith, get-update d m k)

  get-Listed : (d : Dict K V) (k : K) (v : V) → get d k ≡ some v → Listed k v d
  get-Listed [] k v h = cc h
  get-Listed ((j, w) ∷ d) k v h = let rec = get-Listed d k v in ground (arith, e.beq_iff j k)

  has_entry : (d : Dict K V) (k : K) (v : V) → Listed k v d → get d k ≢ none
  has_entry [] k v l = absurd l
  has_entry ((j, w) ∷ d) k v (inl (p, q)) = λ n. ground (arith, e.beq_iff j k)
  has_entry ((j, w) ∷ d) k v (inr l) =
      let rec = has_entry d k v l in λ n. ground (arith, e.beq_iff j k)

  pub Listed-get : (d : Dict K V) (k : K) (v : V) → IsDict d → Listed k v d → get d k ≡ some v
  Listed-get [] k v u l = absurd l
  Listed-get ((j, w) ∷ d) k v u (inl (p, q)) = ground (arith, e.beq_iff j k)
  Listed-get ((j, w) ∷ d) k v (n, u) (inr l) =
      let rec = Listed-get d k v u l in
      let other = has_entry d k v l in
      elim (Bool-cases (j == k)) [
        | inl s ↦ absurd (other (ap (get d) (sym ((e.beq_iff j k).0 s)) ∙ n))
        | inr s ↦ ground arith
      ]

  -- The dictionary of a list has the pairs of the list, and no others.
  pub Listed-of_dict : (m : List (K × V)) (k : K) (v : V) → Listed k v (update [] m) → Listed k v m
  Listed-of_dict m k v l =
      let found = Listed-get (update [] m) k v (update-IsDict [] m tt) l in
      elim (Option-cases (last_of m k)) [
        | inl n ↦ absurd (ground (arith, get-update [] m k))
        | inr (w, s) ↦ last_of-Listed m k v (ground (arith, get-update [] m k))
      ]

  pub Listed-in_dict :
      (m : List (K × V)) (k : K) (v : V)
      → ((k : K) (v w : V) → Listed k v m → Listed k w m → v ≡ w)
      → Listed k v m
      → Listed k v (update [] m)
  Listed-in_dict m k v among l =
      get-Listed (update [] m) k v
        (get-update_new [] m k v (record { among = among; old = λ k v w l h. absurd (cc h) }) l)

module _ {K V : Type 0} where
  pub Listed-left : (k : K) (v : V) (a b : List (K × V)) → Listed k v a → Listed k v (a ++ b)
  Listed-left k v [] b l = absurd l
  Listed-left k v (x ∷ a) b (inl p) = inl p
  Listed-left k v (x ∷ a) b (inr l) = inr (Listed-left k v a b l)

  pub Listed-right : (k : K) (v : V) (a b : List (K × V)) → Listed k v b → Listed k v (a ++ b)
  Listed-right k v [] b l = l
  Listed-right k v (x ∷ a) b l = inr (Listed-right k v a b l)

  pub Listed-append :
      (k : K) (v : V) (a b : List (K × V)) → Listed k v (a ++ b) → Listed k v a ⊎ Listed k v b
  Listed-append k v [] b l = inr l
  Listed-append k v (x ∷ a) b (inl p) = inl (inl p)
  Listed-append k v (x ∷ a) b (inr l) = elim (Listed-append k v a b l) [
    | inl m ↦ inl (inr m)
    | inr m ↦ inr m
  ]

-- A pair of a mapped list comes from a pair of the list.
pub Listed-of_map :
    {K V K' V' : Type 0} (g : K × V → K' × V') (m : List (K × V)) (k : K') (v : V')
    → Listed k v (map g m)
    → (a : K) × (b : V) × Listed a b m × ((g (a, b)).0 ≡ k) × ((g (a, b)).1 ≡ v)
Listed-of_map g [] k v l = absurd l
Listed-of_map g ((a, b) ∷ m) k v (inl (p, q)) = (a, b, inl (refl, refl), p, q)
Listed-of_map g ((a, b) ∷ m) k v (inr l) =
    let (c, d, r, p, q) = Listed-of_map g m k v l in (c, d, inr r, p, q)
