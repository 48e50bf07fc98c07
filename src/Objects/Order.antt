-- ===== src/Objects/Order.antt =====
-- The bounds of an order's fulfilled amount.
use starkex_data_availabilit.Prelude.{
  ℕ, ◌+◌, ◌<◌, ◌≤◌, ◌≡◌, sym, ap, ap₂, ◌∙◌, arith, Bool, true, not,
}
use starkex_data_availabilit.Prelude.Int.{ℤ, pos, ◌+ℤ◌, leb_int, ltb_int, pos-injective}
use starkex_data_availabilit.Errors.{
  StarkErrorCode, out_of_range_amount, Checked, returned, raised, after_assert,
}
use starkex_data_availabilit.Objects.{
  max_amount, in_range, OrderUpdateData, OrderState, make_order, add_order,
}
use starkex_data_availabilit.Objects.Vault.{pos_of_range}

-- The fulfilled amount is in range.
pub record IsOrder (o : OrderState) : Type 0 where
  pub amount : ℕ
  pub amount_eq : o.fulfilled_amount ≡ pos amount
  pub small : amount < max_amount

-- A result that is returned.
abbrev in_code : OrderState → Checked StarkErrorCode OrderState
in_code o = returned o

amount_of :
    (a : ℤ) (o : OrderState)
    → in_code (record { fulfilled_amount = a }) ≡ in_code o
    → o.fulfilled_amount ≡ a
amount_of a o e = sym (ap (λ r. elim r [ returned x ↦ x.fulfilled_amount | raised c ↦ a ]) e)

make_order_lem :
    (a : ℤ) (o : OrderState)
    → make_order a ≡ returned o
    → (in_range a ≡ true) × (o.fulfilled_amount ≡ a)
unfolding make_order
make_order_lem a o e =
    let (r, q) = after_assert (in_range a) out_of_range_amount _ o e in (r, amount_of a o q)

-- An update of a well formed order that returns adds an amount that is not negative to it, and the
-- result is a well formed order with an amount of at most the capacity.
pub add_order_bounds :
    (o o' : OrderState) (change : OrderUpdateData)
    → (w : IsOrder o) → add_order o change ≡ returned o'
    → (w' : IsOrder o') × (w.amount ≤ w'.amount)
      × (o'.fulfilled_amount ≡ o.fulfilled_amount +ℤ change.diff)
      × (leb_int o'.fulfilled_amount change.capacity ≡ true)
unfolding add_order
add_order_bounds o o' change w e =
    let (d, e1) = after_assert (in_range change.diff) out_of_range_amount _ o' e in
    let (c, e2) =
      after_assert (not (ltb_int change.capacity (o.fulfilled_amount +ℤ change.diff)))
        out_of_range_amount _ o' e1 in
    let (r, q) = make_order_lem _ o' e2 in
    let (k, ek, _) = pos_of_range change.diff d in
    let (m, em, lt) = pos_of_range _ r in
    (
      record { amount = m; amount_eq = q ∙ em; small = lt },
      sum w.amount k m (ap₂ (λ a b. a +ℤ b) (sym w.amount_eq) (sym ek) ∙ em),
      q,
      ap (λ a. leb_int a change.capacity) q ∙ twice _ c,
    )
  where
    sum : (a k m : ℕ) → pos a +ℤ pos k ≡ pos m → a ≤ m
    sum a k m e = let r = pos-injective (a + k) m e in omega arith

    twice : (b : Bool) → not (not b) ≡ true → b ≡ true
    twice b e = ground (arith, e)
