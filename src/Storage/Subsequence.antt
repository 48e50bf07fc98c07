-- ===== src/Storage/Subsequence.antt =====
-- is_subsequence against the library's sublists.
use mathlib.Core.List.{Sublistᴰ}
use mathlib.Core.List.Sublistᴰ.{slnil, cons, cons-cons}
use starkex_data_availabilit.Prelude.{
  ◌≡◌, ◌↔◌, refl, sym, true, List, [], ◌∷◌, Eq, ◌==◌, Bool-cases, inl, inr,
}
use starkex_data_availabilit.Storage.Values.{is_subsequence}

module _ {A : Type 0} ⦃e : Eq A⦄ where
  empty_sublist : (ys : List A) → Sublistᴰ [] ys
  empty_sublist [] = slnil
  empty_sublist (y ∷ ys) = cons (empty_sublist ys)

  without_head : (x : A) (xs ys : List A) → Sublistᴰ (x ∷ xs) ys → Sublistᴰ xs ys
  without_head x xs [] s = elim s [ ]
  without_head x xs (y ∷ ys) (cons s) = cons (without_head x xs ys s)
  without_head x xs (y ∷ ys) (cons-cons p s) = cons s

  finds : (xs ys : List A) → Sublistᴰ xs ys → is_subsequence xs ys ≡ true
  unfolding is_subsequence
  finds [] [] s = refl
  finds (x ∷ xs) [] s = elim s [ ]
  finds [] (y ∷ ys) s = refl
  finds (x ∷ xs) (y ∷ ys) (cons s) = elim (Bool-cases (y == x)) [
    | inl same ↦ rw same (finds xs ys (without_head x xs ys s))
    | inr other ↦ rw other (finds (x ∷ xs) ys s)
  ]
  finds (x ∷ xs) (y ∷ ys) (cons-cons p s) =
      let same : (y == x) ≡ true = (e.beq_iff y x).1 (sym p) in rw same (finds xs ys s)

  found-Sublist : (xs ys : List A) → is_subsequence xs ys ≡ true → Sublistᴰ xs ys
  unfolding is_subsequence
  found-Sublist [] ys h = empty_sublist ys
  found-Sublist (x ∷ xs) [] h = absurd (cc h)
  found-Sublist (x ∷ xs) (y ∷ ys) h = elim (Bool-cases (y == x)) [
    | inl same ↦
        let r : is_subsequence xs ys ≡ true = rw same at h in
        cons-cons (sym ((e.beq_iff y x).0 same)) (found-Sublist xs ys r)
    | inr other ↦
        let r : is_subsequence (x ∷ xs) ys ≡ true = rw other at h in
        cons (found-Sublist (x ∷ xs) ys r)
  ]

-- is_subsequence of two lists, which takes each item at its first place, is true exactly when the
-- first list is a sublist of the second: its items stand in it in the same order.
pub is_subsequence_iff :
    {A : Type 0} ⦃e : Eq A⦄ (subsequence sequence : List A)
    → (is_subsequence subsequence sequence ≡ true) ↔ Sublistᴰ subsequence sequence
is_subsequence_iff subsequence sequence =
    (found-Sublist subsequence sequence, finds subsequence sequence)
