-- ===== src/Patricia/Leaves/Reads.antt =====
-- What a dictionary of leaves has to hold, and that the joins of `_get_leaves` keep it.
use starkex_data_availabilit.Prelude.{
  ℕ, ◌+◌, ◌-◌, ◌<◌, ◌≤◌, ◌≡◌, refl, sym, ap, ◌∙◌, arith, Bool, true, not, ◌&&◌, inl, inr, Option,
  none, some, List, [], ◌∷◌, map, keep, ltb, leb, ltb-false, lt→ltb, ℕ_eq, eqb_iff, if◌then◌else◌,
  lt_or_ge, &&-true,
}
use starkex_data_availabilit.Prelude.Dict.{Dict, IsDict, update-IsDict}
use starkex_data_availabilit.Prelude.Dict
use starkex_data_availabilit.Bytes.{Bytes}
use starkex_data_availabilit.Storage.{Db, DbClass, get_or_fail}
use starkex_data_availabilit.CommitmentTree.UpdateTree.{elem}
use starkex_data_availabilit.Patricia.Nodes.{empty_node_hash}
use starkex_data_availabilit.Patricia.Leaves.{
  shift, unify_binary_leaves, unify_edge_leaves, only_zero, get_empty_leaves,
}
use starkex_data_availabilit.Patricia.Leaves.Lookups.{
  elem-keep, elem-map-sub, All-keep, get-update-shift, get-constant,
}

-- The indices that `_get_leaves` passes down, from a split of the collection.
abbrev pub moved : ℕ → (ℕ → Bool) → List ℕ → List ℕ
moved m test is = map (λ j. j - m) (keep test is)

pub elem-moved :
    (m : ℕ) (test : ℕ → Bool) (is : List ℕ) (i : ℕ)
    → ((j : ℕ) → test j ≡ true → m ≤ j)
    → elem i (moved m test is) ≡ (elem (i + m) is && test (i + m))
elem-moved m test is i above =
    elem-map-sub m (keep test is) i (All-keep test is above) ∙ elem-keep test is (i + m)

module _ {L : Type 0} (cls : DbClass L) (db : Db) where
  -- What the code should read at an index of a tree with these leaf hashes.
  abbrev pub wanted : (ℕ → Bytes) → List ℕ → ℕ → Option L
  wanted leaf_hash is i = if elem i is then get_or_fail cls db (leaf_hash i) else none

  -- The dictionary has exactly the leaves at the indices.
  pub record Reads (leaf_hash : ℕ → Bytes) (is : List ℕ) (d : Dict ℕ L) : Type 0 where
    pub dict : IsDict d
    pub get : (i : ℕ) → Dict.get d i ≡ wanted leaf_hash is i

  -- The indices are in the tree, and the leaves there are stored.
  abbrev pub Readable : (size : ℕ) → (ℕ → Bytes) → List ℕ → Type 0
  Readable size leaf_hash is =
      (i : ℕ)
      → elem i is ≡ true
      → (i < size) × ((f : L) × (get_or_fail cls db (leaf_hash i) ≡ some f))

  pub Reads-binary :
      (m : ℕ) (is : List ℕ) (leaf_hash left right : ℕ → Bytes) (dl dr : Dict ℕ L)
      → ((i : ℕ) → leaf_hash i ≡ (if ltb i m then left i else right (i - m)))
      → Reads left (keep (λ j. ltb j m) is) dl
      → Reads right (moved m (λ j. leb m j) is) dr
      → Reads leaf_hash is (unify_binary_leaves m dl dr)
  unfolding unify_binary_leaves
  Reads-binary m is leaf_hash left right dl dr e rl rr = record {
    dict = update-IsDict dl (shift m dr) rl.dict;
    get = λ i. get-update-shift dl dr m i rr.dict ∙ at i;
  }
    where
      at :
          (i : ℕ)
          → elim (if leb m i then Dict.get dr (i - m) else none) [
            | none ↦ Dict.get dl i
            | some v ↦ some v
          ]
            ≡ wanted leaf_hash is i
      at i = elim (lt_or_ge i m) [
        | inl lt ↦ ground (arith, rl.get i, elem-keep (λ j. ltb j m) is i, e i)
        | inr ge ↦
            let k : i - m + m ≡ i = omega arith in
            let q =
              elem-moved m (λ j. leb m j) is (i - m) (λ j t. ground (arith, t))
              ∙ ap (λ n. elem n is && leb m n) k in
            ground (arith, rl.get i, rr.get (i - m), elem-keep (λ j. ltb j m) is i, e i, q)
      ]

  pub get_empty_leaves_lem :
      (js : List ℕ)
      → ((i : ℕ) → elem i js ≡ true → (f : L) × (get_or_fail cls db empty_node_hash ≡ some f))
      → (d : Dict ℕ L) × (get_empty_leaves cls db js ≡ some d) × Reads (λ i. empty_node_hash) js d
  unfolding get_empty_leaves
  get_empty_leaves_lem [] h = ([], refl, record { dict = tt; get = λ i. refl })
  get_empty_leaves_lem (j ∷ js) h =
      let (f, e) = h j (ground (arith, eqb_iff j j)) in
      (
        Dict.update [] (map (λ i. (i, f)) (j ∷ js)),
        rw e,
        record {
          dict = update-IsDict [] (map (λ i. (i, f)) (j ∷ js)) tt;
          get = λ i. get-constant (j ∷ js) f i ∙ rw e;
        },
      )

  -- The leaves of the subtree under an edge path, and empty leaves at the other indices.
  pub Reads-edge :
      (m : ℕ) (test : ℕ → Bool) (is : List ℕ) (leaf_hash below : ℕ → Bytes)
      (bottoms empties : Dict ℕ L)
      → ((i : ℕ) → test i ≡ true → m ≤ i)
      → ((i : ℕ)
          → elem i is ≡ true
          → leaf_hash i ≡ (if test i then below (i - m) else empty_node_hash))
      → ((i : ℕ) → elem i is ≡ true → (f : L) × (get_or_fail cls db (leaf_hash i) ≡ some f))
      → Reads below (moved m test is) bottoms
      → Reads (λ i. empty_node_hash) (keep (λ j. not (test j)) is) empties
      → Reads leaf_hash is (unify_edge_leaves m bottoms empties)
  unfolding unify_edge_leaves
  Reads-edge m test is leaf_hash below bottoms empties above e stored rb re = record {
    dict = update-IsDict empties (shift m bottoms) re.dict;
    get = λ i. get-update-shift empties bottoms m i rb.dict ∙ at i;
  }
    where
      at :
          (i : ℕ)
          → elim (if leb m i then Dict.get bottoms (i - m) else none) [
            | none ↦ Dict.get empties i
            | some v ↦ some v
          ]
            ≡ wanted leaf_hash is i
      at i = elim (lt_or_ge i m) [
        | inl lt ↦ ground (arith, re.get i, elem-keep (λ j. not (test j)) is i, e i, above i)
        | inr ge ↦
            let k : i - m + m ≡ i = omega arith in
            let q = elem-moved m test is (i - m) above ∙ ap (λ n. elem n is && test n) k in
            ground (
              arith,
              re.get i,
              rb.get (i - m),
              elem-keep (λ j. not (test j)) is i,
              e i,
              q,
              stored i,
            )
      ]

  pub only_zero_lem :
      (j : ℕ) (is : List ℕ) → ((i : ℕ) → elem i (j ∷ is) ≡ true → i < 1) → only_zero (j ∷ is) ≡ true
  only_zero_lem j [] h = let p : j < 1 = h j (ground (arith, eqb_iff j j)) in ground arith
  only_zero_lem j (k ∷ is) h =
      let p : j < 1 = h j (ground (arith, eqb_iff j j)) in
      ground (arith, only_zero_lem k is (λ i e. h i (ground (arith, e))))

  -- What is readable stays so in the parts of a tree.
  pub Readable-left :
      (m : ℕ) (is : List ℕ) (leaf_hash left right : ℕ → Bytes)
      → ((i : ℕ) → leaf_hash i ≡ (if ltb i m then left i else right (i - m)))
      → Readable (m + m) leaf_hash is
      → Readable m left (keep (λ j. ltb j m) is)
  Readable-left m is leaf_hash left right e ok i p =
      let (q, lt) = &&-true (elem i is) (ltb i m) (sym (elem-keep (λ j. ltb j m) is i) ∙ p) in
      let low : i < m = ground (arith, lt) in
      let (_, (f, r)) = ok i q in
      let same : leaf_hash i ≡ left i = e i ∙ rw (lt→ltb i m low) in (low, (f, rw (← same) r))

  pub Readable-right :
      (m : ℕ) (is : List ℕ) (leaf_hash left right : ℕ → Bytes)
      → ((i : ℕ) → leaf_hash i ≡ (if ltb i m then left i else right (i - m)))
      → Readable (m + m) leaf_hash is
      → Readable m right (moved m (λ j. leb m j) is)
  Readable-right m is leaf_hash left right e ok i p =
      let t = sym (elem-moved m (λ j. leb m j) is i (λ j t. ground (arith, t))) ∙ p in
      let (q, _) = &&-true (elem (i + m) is) (leb m (i + m)) t in
      let (lt, (f, r)) = ok (i + m) q in
      let k : i + m - m ≡ i = omega arith in
      let same : leaf_hash (i + m) ≡ right i =
        e (i + m) ∙ rw (ltb-false (i + m) m (omega arith), k) in
      (omega (arith, lt), (f, rw (← same) r))

  pub Readable-below :
      (m size bottom : ℕ) (test : ℕ → Bool) (is : List ℕ) (leaf_hash below : ℕ → Bytes)
      → ((i : ℕ) → test i ≡ true → (m ≤ i) × (i - m < bottom))
      → ((i : ℕ) → i < size → leaf_hash i ≡ (if test i then below (i - m) else empty_node_hash))
      → Readable size leaf_hash is
      → Readable bottom below (moved m test is)
  Readable-below m size bottom test is leaf_hash below bound e ok i p =
      let t = sym (elem-moved m test is i (λ j t. (bound j t).0)) ∙ p in
      let (q, u) = &&-true (elem (i + m) is) (test (i + m)) t in
      let (lt, (f, r)) = ok (i + m) q in
      let k : i + m - m ≡ i = omega arith in
      let same : leaf_hash (i + m) ≡ below i = e (i + m) lt ∙ rw (u, k) in
      (moved_bound i (bound (i + m) u).1, (f, rw (← same) r))
    where
      moved_bound : (i : ℕ) → i + m - m < bottom → i < bottom
      moved_bound i h = omega (arith, h)
