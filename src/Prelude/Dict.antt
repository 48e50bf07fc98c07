-- ===== src/Prelude/Dict.antt =====
-- Python's `dict` as an association list in insertion order: a write to a present key keeps the
-- key's place, as CPython does.
pub mod Writes
use mathlib.Core.Path.{◌≡◌, refl}
use mathlib.Core.Logic.{◌≢◌}
use mathlib.Core.Bool.{Bool, true, false}
use mathlib.Core.Option.{Option, none, some}
use mathlib.Core.List.{List, [], ◌∷◌, map}
use native.Mathlib.Omega.{arith}
use starkex_data_availabilit.Prelude.Tests.{Eq, ◌==◌, ==_refl, ==_ne, if◌then◌else◌}

abbrev pub Dict {ℓ κ} : Type ℓ → Type κ → Type (ℓ ⊔ κ)
Dict K V = List (K × V)

module _ {ℓ κ} {K : Type ℓ} {V : Type κ} ⦃e : Eq K⦄ where
  -- `d.get(k)`
  abbrev pub get : Dict K V → K → Option V
  get [] k = none
  get ((j, v) ∷ d) k = if j == k then some v else get d k

  -- `k in d`
  abbrev pub has : Dict K V → K → Bool
  has d k = elim (get d k) [ none ↦ false | some _ ↦ true ]

  -- `d[k] = v`
  abbrev pub put : Dict K V → K → V → Dict K V
  put [] k v = (k, v) ∷ []
  put ((j, w) ∷ d) k v = if j == k then (k, v) ∷ d else (j, w) ∷ put d k v

  -- `del d[k]`, `d.pop(k, None)`
  abbrev pub del : Dict K V → K → Dict K V
  del [] k = []
  del ((j, w) ∷ d) k = let rest = del d k in if j == k then rest else (j, w) ∷ rest

  -- `d.update(m)`, `dict(m)` from a list of pairs: the last of equal keys wins.
  abbrev pub update : Dict K V → List (K × V) → Dict K V
  update d [] = d
  update d ((k, v) ∷ m) = update (put d k v) m

  -- The last value that a list of pairs gives to a key.
  abbrev pub last_of : List (K × V) → K → Option V
  last_of [] k = none
  last_of ((j, v) ∷ m) k = elim (last_of m k) [
    | none ↦ if j == k then some v else none
    | some w ↦ some w
  ]

  pub get-put :
      (d : Dict K V) (k j : K) (v : V) → get (put d k v) j ≡ (if k == j then some v else get d j)
  get-put [] k j v = refl
  get-put ((i, w) ∷ d) k j v =
      ground (arith, e.beq_iff k j, e.beq_iff i k, e.beq_iff i j, get-put d k j v)

  pub get-put_self : (d : Dict K V) (k : K) (v : V) → get (put d k v) k ≡ some v
  get-put_self d k v = rw (get-put, ==_refl k)

  pub get-put_ne : (d : Dict K V) (k j : K) (v : V) → k ≢ j → get (put d k v) j ≡ get d j
  get-put_ne d k j v h = rw (get-put, ==_ne k j h)

  pub get-del : (d : Dict K V) (k j : K) → get (del d k) j ≡ (if k == j then none else get d j)
  get-del [] k j = ground arith
  get-del ((i, w) ∷ d) k j =
      ground (arith, e.beq_iff k j, e.beq_iff i k, e.beq_iff i j, get-del d k j)

  pub get-update :
      (d : Dict K V) (m : List (K × V)) (j : K)
      → get (update d m) j ≡ elim (last_of m j) [ none ↦ get d j | some v ↦ some v ]
  get-update d [] j = refl
  get-update d ((k, v) ∷ m) j = ground (arith, get-update (put d k v) m j, get-put d k j v)

-- `d.keys()` and `d.values()`, in insertion order.
abbrev pub keys {ℓ κ} : {K : Type ℓ} {V : Type κ} → Dict K V → List K
keys d = map (λ e. e.0) d

pub ruleset dict_laws = (get-put, get-del)

-- No key is listed twice.
abbrev pub IsDict {ℓ κ} : {K : Type ℓ} {V : Type κ} ⦃e : Eq K⦄ → Dict K V → Type (ℓ ⊔ κ)
IsDict [] = Unit
IsDict ((k, v) ∷ d) = (get d k ≡ none) × IsDict d

module _ {ℓ κ} {K : Type ℓ} {V : Type κ} ⦃e : Eq K⦄ where
  pub put-IsDict : (d : Dict K V) (k : K) (v : V) → IsDict d → IsDict (put d k v)
  put-IsDict [] k v h = (refl, tt)
  put-IsDict ((j, w) ∷ d) k v h =
      ground (arith, e.beq_iff j k, get-put_ne d k j v, put-IsDict d k v h.1)

  pub update-IsDict : (d : Dict K V) (m : List (K × V)) → IsDict d → IsDict (update d m)
  update-IsDict d [] h = h
  update-IsDict d ((k, v) ∷ m) h = update-IsDict (put d k v) m (put-IsDict d k v h)

  get-del-none : (d : Dict K V) (k j : K) → get d j ≡ none → get (del d k) j ≡ none
  get-del-none d k j h = rw (get-del d k j) (ground (arith, h))

  pub del-IsDict : (d : Dict K V) (k : K) → IsDict d → IsDict (del d k)
  del-IsDict [] k h = tt
  del-IsDict ((j, w) ∷ d) k h = ground (arith, get-del-none d k j h.0, del-IsDict d k h.1)
