-- ===== src/Objects/Undo.antt =====
-- Undoing an update of a vault.
use starkex_data_availabilit.Prelude.{
  ℕ, ◌<◌, ◌≡◌, ◌≢◌, inl, inr, sym, ap, ◌∙◌, arith, Bool, true, not, ==_refl, Bool-cases, eq_or_ne,
}
use starkex_data_availabilit.Prelude.Int.{
  ℤ, pos, ◌+ℤ◌, negate, ltb_int, ℤ_eq, add-negate, eqb_int_iff,
}
use starkex_data_availabilit.Errors.{
  StarkErrorCode, invalid_vault, Checked, returned, stark_assert_eq, after_assert, assert-returned,
  ◌>>◌,
}
use starkex_data_availabilit.Objects.{
  max_amount, VaultUpdateData, VaultState, vault, make_vault, check_update, add,
}
use starkex_data_availabilit.Objects.Vault.{
  IsVault, in_range-pos, Made, add-Added, make_vault-zero, make_vault-full,
}

-- The update with the opposite change of the balance.
abbrev pub opposite : VaultUpdateData → VaultUpdateData
opposite change = record {
  vault_id = change.vault_id;
  stark_key = change.stark_key;
  token = change.token;
  diff = negate change.diff;
}

positive : (n : ℕ) → n ≢ 0 → ltb_int (pos 0) (pos n) ≡ true
positive n nz = ground (arith, nz)

check_update-empty :
    (v : VaultState) (change : VaultUpdateData)
    → v.balance ≡ pos 0
    → check_update v change ≡ returned tt
unfolding check_update
check_update-empty v change e = rw e

check_update-same :
    (v : VaultState) (change : VaultUpdateData)
    → v.stark_key ≡ change.stark_key
    → v.token ≡ change.token
    → check_update v change ≡ returned tt
unfolding check_update
check_update-same v change ek et = elim (Bool-cases (ltb_int (pos 0) v.balance)) [
  | inl b ↦ rw (b, ek, et, ==_refl change.stark_key, ==_refl change.token)
  | inr b ↦ rw b
]

-- A check of a vault with a balance compares the key and the token.
pub check_update-full :
    (v : VaultState) (change : VaultUpdateData) (n : ℕ)
    → v.balance ≡ pos n
    → n ≢ 0
    → check_update v change ≡ returned tt
    → (v.stark_key ≡ change.stark_key) × (v.token ≡ change.token)
unfolding check_update
check_update-full v change n e nz h =
    let h2 : both ≡ returned tt = rw (e, positive n nz) at h in
    let (k, h3) = after_assert _ invalid_vault _ tt h2 in
    let t = assert-returned _ invalid_vault tt h3 in
    (
      (eqb_int_iff v.stark_key change.stark_key).0 (twice _ k),
      (eqb_int_iff v.token change.token).0 (twice _ t),
    )
  where
    both : Checked StarkErrorCode (Unit {0})
    both = do
      stark_assert_eq v.stark_key change.stark_key invalid_vault
      stark_assert_eq v.token change.token invalid_vault

    twice : (b : Bool) → not (not b) ≡ true → b ≡ true
    twice b e = ground (arith, e)

add_lem :
    (v : VaultState) (change : VaultUpdateData) (n : ℕ)
    → check_update v change ≡ returned tt
    → v.balance +ℤ change.diff ≡ pos n
    → n < max_amount
    → add v change ≡ make_vault change.stark_key change.token (pos n)
unfolding add
add_lem v change n c s lt = rw (c, s, in_range-pos n lt)

-- The vault that is made from the key and the token of a vault with its own balance is that vault.
make_again :
    (v : VaultState) (w : IsVault v) (k t : ℤ)
    → (w.amount ≢ 0 → (v.stark_key ≡ k) × (v.token ≡ t))
    → make_vault k t (pos w.amount) ≡ returned v
make_again v w k t same = elim (eq_or_ne w.amount 0) [
  | inl z ↦
      let (ek, et) = w.empty z in
      ap (λ n. make_vault k t (pos n)) z
      ∙ make_vault-zero k t
      ∙ ap returned (λ i. vault (sym ek i) (sym et i) (sym (w.balance_eq ∙ ap pos z) i))
  | inr nz ↦
      let (ek, et) = same nz in
      let (nk, nt) = w.full nz in
      make_vault-full k t w.amount w.small nz (λ e. nk (ek ∙ e)) (λ e. nt (et ∙ e))
      ∙ ap returned (λ i. vault (sym ek i) (sym et i) (sym w.balance_eq i))
]

-- The check passes on a vault that was made with the key and the token of the update.
check-Made :
    (change : VaultUpdateData) (n : ℕ) (w : VaultState)
    → Made change.stark_key change.token n w
    → check_update w (opposite change) ≡ returned tt
check-Made change n w (inl (z, e)) = check_update-empty w (opposite change) (ap (λ v. v.balance) e)
check-Made change n w (inr (nz, nk, nt, e)) =
    check_update-same w (opposite change) (ap (λ v. v.stark_key) e) (ap (λ v. v.token) e)

Made-balance : (k t : ℤ) (n : ℕ) (w : VaultState) → Made k t n w → w.balance ≡ pos n
Made-balance k t n w (inl (z, e)) = ap (λ v. v.balance) e ∙ ap pos (sym z)
Made-balance k t n w (inr (nz, nk, nt, e)) = ap (λ v. v.balance) e

-- An update of a well formed vault that returns is undone by the opposite update.
pub add-opposite :
    (v w : VaultState) (change : VaultUpdateData)
    → IsVault v
    → add v change ≡ returned w
    → add w (opposite change) ≡ returned v
add-opposite v w change wv e =
    let a = add-Added v w change e in
    let s : pos wv.amount +ℤ change.diff ≡ pos a.amount =
      ap (λ b. b +ℤ change.diff) (sym wv.balance_eq) ∙ a.sum in
    let b = Made-balance _ _ a.amount w a.made in
    let back : w.balance +ℤ negate change.diff ≡ pos wv.amount =
      ap (λ z. z +ℤ negate change.diff) b ∙ add-negate wv.amount change.diff a.amount s in
    add_lem w (opposite change) wv.amount (check-Made change a.amount w a.made) back wv.small
    ∙ make_again v wv change.stark_key change.token
        (λ nz. check_update-full v change wv.amount wv.balance_eq nz a.checked)
