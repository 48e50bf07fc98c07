-- ===== src/Objects/Raises.antt =====
-- Which error VaultState.add raises, and when.
use starkex_data_availabilit.Prelude.{
  ◌≡◌, ◌≢◌, ◌⊎◌, inl, inr, refl, sym, Bool, true, false, not, ◌==◌, Bool-cases, arith,
}
use starkex_data_availabilit.Prelude.Int.{ℤ, pos, ◌+ℤ◌, ltb_int, ℤ_eq, eqb_int_iff}
use starkex_data_availabilit.Errors.{
  StarkErrorCode, out_of_range_balance, invalid_vault, Checked, returned, raised, stark_assert,
  stark_assert_eq, stark_assert_ne, after_raise, ◌>>◌, >>=-raised,
}
use starkex_data_availabilit.Objects.{
  in_range, VaultUpdateData, VaultState, vault, make_vault, check_update, add,
}

assert-raised :
    (c : Bool) (code e : StarkErrorCode) → stark_assert c code ≡ raised e → (c ≡ false) × (code ≡ e)
assert-raised true code e h = absurd (cc h)
assert-raised false code e h = (refl, cc h)

-- `exp_val != actual_val` in the assertion.
ne_of_test : (x y : ℤ) → not (not (x == y)) ≡ false → x ≢ y
ne_of_test x y t e = let r = (eqb_int_iff x y).1 e in cc (t, r)

eq_of_test : (y : ℤ) → not (pos 0 == y) ≡ false → y ≡ pos 0
eq_of_test y t = sym ((eqb_int_iff (pos 0) y).0 (ground (arith, t)))

balance_ne : (b : ℤ) → ltb_int (pos 0) b ≡ true → b ≢ pos 0
balance_ne b t e = let r : ltb_int (pos 0) (pos 0) ≡ true = rw e at t in absurd (cc r)

-- The update is for another vault than the one that holds a balance, or it leaves a balance in a
-- vault with no key or no token.
abbrev pub Mismatch : VaultState → VaultUpdateData → Type 0
Mismatch v change =
    ((v.balance ≢ pos 0) × ((v.stark_key ≢ change.stark_key) ⊎ (v.token ≢ change.token)))
    ⊎ ((v.balance +ℤ change.diff ≢ pos 0) × ((change.stark_key ≡ pos 0) ⊎ (change.token ≡ pos 0)))

check_update-raised :
    (v : VaultState) (change : VaultUpdateData) (e : StarkErrorCode)
    → check_update v change ≡ raised e
    → (e ≡ invalid_vault) × Mismatch v change
unfolding check_update
check_update-raised v change e h = elim (Bool-cases (ltb_int (pos 0) v.balance)) [
  | inl b ↦
      let h2 : both ≡ raised e = rw b at h in
      elim (after_raise (not (not (v.stark_key == change.stark_key))) invalid_vault e _ h2) [
        | inl (t, c) ↦ (sym c, inl (balance_ne v.balance b, inl (ne_of_test _ _ t)))
        | inr (_, h3) ↦
            let (t, c) = assert-raised (not (not (v.token == change.token))) invalid_vault e h3 in
            (sym c, inl (balance_ne v.balance b, inr (ne_of_test _ _ t)))
      ]
  | inr b ↦ let h2 : returned tt ≡ raised e = rw b at h in absurd (cc h2)
]
  where
    both : Checked StarkErrorCode (Unit {0})
    both = do
      stark_assert_eq v.stark_key change.stark_key invalid_vault
      stark_assert_eq v.token change.token invalid_vault

make_vault-raised :
    (k t b : ℤ) (e : StarkErrorCode)
    → in_range b ≡ true
    → make_vault k t b ≡ raised e
    → (e ≡ invalid_vault) × (b ≢ pos 0) × ((k ≡ pos 0) ⊎ (t ≡ pos 0))
unfolding make_vault
make_vault-raised k t b e r h = elim (Bool-cases (b == pos 0)) [
  | inl z ↦
      let h2 : returned (vault (pos 0) (pos 0) b) ≡ raised e = rw (r, z) at h in absurd (cc h2)
  | inr z ↦
      let h2 : keyed ≡ raised e = rw (r, z) at h in
      elim (after_raise (not (pos 0 == k)) invalid_vault e _ h2) [
        | inl (q, c) ↦ (sym c, ne_of_false z, inl (eq_of_test k q))
        | inr (_, h3) ↦ elim (after_raise (not (pos 0 == t)) invalid_vault e _ h3) [
          | inl (q, c) ↦ (sym c, ne_of_false z, inr (eq_of_test t q))
          | inr (_, h4) ↦ absurd (cc h4)
        ]
      ]
]
  where
    keyed : Checked StarkErrorCode VaultState
    keyed = do
      stark_assert_ne (pos 0) k invalid_vault
      stark_assert_ne (pos 0) t invalid_vault
      returned (vault k t b)

    ne_of_false : (b == pos 0) ≡ false → b ≢ pos 0
    ne_of_false z q = let r = (eqb_int_iff b (pos 0)).1 q in cc (z, r)

-- An update that raises has a sum out of range, and raises that error, or it is for another vault or
-- would leave a balance without a key or a token, and raises that the vault is invalid.
pub add-raised :
    (v : VaultState) (change : VaultUpdateData) (e : StarkErrorCode)
    → add v change ≡ raised e
    → ((e ≡ out_of_range_balance) × (in_range (v.balance +ℤ change.diff) ≡ false))
      ⊎ ((e ≡ invalid_vault) × Mismatch v change)
unfolding add
add-raised v change e h = elim (>>=-raised (check_update v change) _ e h) [
  | inl c ↦ inr (check_update-raised v change e c)
  | inr (_, _, h2) ↦
      elim (after_raise (in_range (v.balance +ℤ change.diff)) out_of_range_balance e _ h2) [
        | inl (q, c) ↦ inl (sym c, q)
        | inr (q, h3) ↦
            let (c, nz, keys) = make_vault-raised change.stark_key change.token _ e q h3 in
            inr (c, inr (nz, keys))
      ]
]
