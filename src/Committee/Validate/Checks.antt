-- ===== src/Committee/Validate/Checks.antt =====
-- When the check of a batch's roots passes.
use starkex_data_availabilit.Prelude.{
  ◌≡◌, ◌↔◌, ◌⊎◌, inl, inr, refl, Option, none, some, Bool, true, false, List, [], ◌∷◌, ◌==◌, ◌&&◌,
  if◌then◌else◌, ℕ_eq, List_eq, list_beq_iff, ◌>>=◌, ◌>>◌, guard, Bool-cases, Option-cases, All,
}
use starkex_data_availabilit.Prelude.Dict.{Dict}
use starkex_data_availabilit.Prelude.Dict
use starkex_data_availabilit.Bytes.{Bytes}
use starkex_data_availabilit.Committee.{hex, order, CommitteeObjectInfo}
use starkex_data_availabilit.Committee.Validate.{
  contains, obsolete_order_tree_root_str, check_root, check_roots,
}

module _ {L : Type 0} (objects : Dict Bytes (CommitteeObjectInfo L)) (roots : Dict Bytes Bytes)
    (names : List Bytes) (computed : Dict Bytes Bytes) where
  -- The computed root of the object is the expected one.
  abbrev pub RootMatches : Bytes → Bytes → Type 0
  RootMatches name expected =
      (root : Bytes) × (Dict.get computed name ≡ some root) × (hex root ≡ expected)

  -- The expected root is the mark of an obsolete order tree, which only the orders may have.
  abbrev pub IsObsolete : Bytes → Bytes → Type 0
  IsObsolete name expected = (name ≡ order) × (expected ≡ obsolete_order_tree_root_str)

  -- The object has an expected root, which is obsolete, or is not to be compared, or is the hex form
  -- of the computed one.
  abbrev pub RootPasses : Bytes → Type 0
  RootPasses name =
      (expected : Bytes) × (Dict.get roots name ≡ some expected)
      × (IsObsolete name expected ⊎ ((contains name names ≡ false) ⊎ RootMatches name expected))

  -- What the loop's body does once the expected root is read.
  abbrev compare_root : Bytes → Bytes → Option (Unit {0})
  compare_root name expected =
      if name == order && expected == obsolete_order_tree_root_str
      then some tt
      else if contains name names
      then (do root ← Dict.get computed name; guard (hex root == expected))
      else some tt

  guard-true : (b : Bool) → guard b ≡ some tt → b ≡ true
  guard-true true e = refl
  guard-true false e = absurd (cc e)

  compared :
      (expected : Bytes) (o : Option Bytes)
      → (o >>= (λ root. guard (hex root == expected))) ≡ some tt
      → (root : Bytes) × (o ≡ some root) × (hex root ≡ expected)
  compared expected none e = absurd (cc e)
  compared expected (some root) e =
      (root, refl, (list_beq_iff (hex root) expected).0 (guard-true (hex root == expected) e))

  -- The mark is recognised where it is.
  order_mark :
      (name expected : Bytes)
      → (name == order && expected == obsolete_order_tree_root_str) ≡ true
      → IsObsolete name expected
  order_mark name expected e = elim (Bool-cases (name == order)) [
    | inl o ↦
        let m : (expected == obsolete_order_tree_root_str) ≡ true = rw o at e in
        ((list_beq_iff name order).0 o, (list_beq_iff expected obsolete_order_tree_root_str).0 m)
    | inr o ↦ let r : false ≡ true = rw o at e in absurd (cc r)
  ]

  compare_root_sound :
      (name expected : Bytes)
      → compare_root name expected ≡ some tt
      → IsObsolete name expected ⊎ ((contains name names ≡ false) ⊎ RootMatches name expected)
  compare_root_sound name expected e =
      elim (Bool-cases (name == order && expected == obsolete_order_tree_root_str)) [
        | inl o ↦ inl (order_mark name expected o)
        | inr o ↦ elim (Bool-cases (contains name names)) [
          | inl c ↦ inr (inr (compared expected (Dict.get computed name) (rw (o, c) at e)))
          | inr c ↦ inr (inl c)
        ]
      ]

  compare_root_complete :
      (name expected : Bytes)
      → IsObsolete name expected ⊎ ((contains name names ≡ false) ⊎ RootMatches name expected)
      → compare_root name expected ≡ some tt
  compare_root_complete name expected (inl (o, m)) =
      let a = (list_beq_iff name order).1 o in
      let b = (list_beq_iff expected obsolete_order_tree_root_str).1 m in rw (a, b) refl
  compare_root_complete name expected (inr h) =
      elim (Bool-cases (name == order && expected == obsolete_order_tree_root_str)) [
        | inl o ↦ rw o refl
        | inr o ↦ rw o (compares h)
      ]
    where
      compares :
          (contains name names ≡ false) ⊎ RootMatches name expected
          → (if contains name names
              then (do root ← Dict.get computed name; guard (hex root == expected))
              else some tt)
            ≡ some tt
      compares (inl c) = rw c refl
      compares (inr (root, found, e)) =
          let same = (list_beq_iff (hex root) expected).1 e in
          elim (Bool-cases (contains name names)) [
            | inl c ↦ rw (c, found, same) refl
            | inr c ↦ rw c refl
          ]

  check_root_iff :
      (name : Bytes) → (check_root objects roots names computed name ≡ some tt) ↔ RootPasses name
  unfolding check_root
  check_root_iff name = (
    (λ e. elim (Option-cases (Dict.get roots name)) [
      | inl n ↦ let r : none ≡ some tt = rw n at e in absurd (cc r)
      | inr (expected, found) ↦ (expected, found, compare_root_sound name expected (rw found at e))
    ]),
    (λ (expected, found, h). rw found (compare_root_complete name expected h)),
  )

  both : (a b : Option (Unit {0})) → (a >> b) ≡ some tt → (a ≡ some tt) × (b ≡ some tt)
  both none b e = absurd (cc e)
  both (some tt) b e = (refl, e)

  -- The check of the roots passes exactly when each object has an expected root and this root is the
  -- obsolete mark on the order tree, or belongs to an object that is not validated, or is the hex
  -- form of the root that was computed for the object.
  pub check_roots_iff :
      (objs : List Bytes)
      → (check_roots objects roots names computed objs ≡ some tt) ↔ All RootPasses objs
  unfolding check_roots
  check_roots_iff [] = ((λ e. tt), (λ h. refl))
  check_roots_iff (x ∷ objs) = (
    (λ e.
        let (here, there) = both (check_root objects roots names computed x) _ e in
        ((check_root_iff x).0 here, (check_roots_iff objs).0 there)),
    (λ (here, there). rw ((check_root_iff x).1 here) ((check_roots_iff objs).1 there)),
  )
