-- ===== src/Patricia/Leaves/Lookups.antt =====
-- Lookups in the dictionaries that `_get_leaves` joins.
use starkex_data_availabilit.Prelude.{
  ℕ, ◌+◌, ◌-◌, ◌≤◌, ◌≡◌, refl, subst, arith, Bool, true, ◌&&◌, inl, inr, none, some, List, [], ◌∷◌,
  map, keep, leb, ℕ_eq, eqb_iff, if◌then◌else◌, All, eq_or_ne,
}
use starkex_data_availabilit.Prelude.Dict.{Dict, IsDict, get-update, update-IsDict}
use starkex_data_availabilit.Prelude.Dict
use starkex_data_availabilit.CommitmentTree.UpdateTree.{elem}
use starkex_data_availabilit.Patricia.Leaves.{shift}

pub elem-keep :
    (test : ℕ → Bool) (is : List ℕ) (i : ℕ) → elem i (keep test is) ≡ (elem i is && test i)
elem-keep test [] i = refl
elem-keep test (j ∷ is) i = elim (eq_or_ne j i) [
  | inl e ↦
      subst (λ i. elem i (keep test (j ∷ is)) ≡ (elem i (j ∷ is) && test i)) e
        (ground (arith, elem-keep test is j))
  | inr n ↦ ground (arith, elem-keep test is i)
]

-- Moved down, with every index at or above the offset.
pub elem-map-sub :
    (m : ℕ) (is : List ℕ) (i : ℕ)
    → All (λ j. m ≤ j) is
    → elem i (map (λ j. j - m) is) ≡ elem (i + m) is
elem-map-sub m [] i all = refl
elem-map-sub m (j ∷ is) i (le, all) = ground (arith, elem-map-sub m is i all)

pub All-keep :
    {P : ℕ → Type 0} (test : ℕ → Bool) (is : List ℕ)
    → ((i : ℕ) → test i ≡ true → P i)
    → All P (keep test is)
All-keep test [] h = tt
All-keep test (j ∷ is) h = ground (arith, h j, All-keep test is h)

pub All-of_elem : (P : ℕ → Type 0) (is : List ℕ) (i : ℕ) → All P is → elem i is ≡ true → P i
All-of_elem P [] i all e = absurd (cc e)
All-of_elem P (j ∷ is) i (p, all) e = elim (eq_or_ne j i) [
  | inl q ↦ subst P q p
  | inr n ↦ All-of_elem P is i all (ground (arith, e))
]

module _ {L : Type 0} where
  last_of-get : (d : Dict ℕ L) (k : ℕ) → IsDict d → Dict.last_of d k ≡ Dict.get d k
  last_of-get [] k u = refl
  last_of-get ((j, v) ∷ d) k (n, u) = ground (arith, eqb_iff j k, last_of-get d k u)

  last_of-shift :
      (m : ℕ) (d : Dict ℕ L) (i : ℕ)
      → Dict.last_of (shift m d) i ≡ (if leb m i then Dict.last_of d (i - m) else none)
  last_of-shift m [] i = ground arith
  last_of-shift m ((j, v) ∷ d) i = ground (arith, last_of-shift m d i)

  -- A lookup in the union of a dictionary and one that was moved up.
  pub get-update-shift :
      (a b : Dict ℕ L) (m i : ℕ)
      → IsDict b
      → Dict.get (Dict.update a (shift m b)) i
        ≡ elim (if leb m i then Dict.get b (i - m) else none) [
          | none ↦ Dict.get a i
          | some v ↦ some v
        ]
  get-update-shift a b m i u =
      ground (arith, get-update a (shift m b) i, last_of-shift m b i, last_of-get b (i - m) u)

  -- One value for all the indices.
  pub get-constant :
      (is : List ℕ) (v : L) (i : ℕ)
      → Dict.get (Dict.update [] (map (λ j. (j, v)) is)) i ≡ (if elem i is then some v else none)
  get-constant is v i = ground (arith, get-update [] (map (λ j. (j, v)) is) i, last_of-constant is)
    where
      last_of-constant :
          (is : List ℕ)
          → Dict.last_of (map (λ j. (j, v)) is) i ≡ (if elem i is then some v else none)
      last_of-constant [] = refl
      last_of-constant (j ∷ is) = ground (arith, last_of-constant is)
