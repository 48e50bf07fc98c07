-- ===== src/Objects/Vault.antt =====
-- The invariant of a vault, and what `add` does to it.
use starkex_data_availabilit.Prelude.{
  ℕ, ◌<◌, ◌≡◌, ◌≢◌, ◌⊎◌, inl, inr, refl, sym, ap, ◌∙◌, subst, arith, true, false, not, ◌==◌, ==_ne,
  Bool-cases,
}
use starkex_data_availabilit.Prelude.Int.{ℤ, pos, negsuc, ◌+ℤ◌, ℤ_eq, pos-injective, eqb_int_iff}
use starkex_data_availabilit.Errors.{
  StarkErrorCode, out_of_range_balance, invalid_vault, Checked, returned, stark_assert_ne,
  after_assert, >>=-returned, ◌>>◌,
}
use starkex_data_availabilit.Objects.{
  max_amount, in_range, VaultUpdateData, VaultState, vault, make_vault, check_update, add,
}

-- The balance is in range, and the vault has a key and a token exactly if it has a balance.
pub record IsVault (v : VaultState) : Type 0 where
  pub amount : ℕ
  pub balance_eq : v.balance ≡ pos amount
  pub small : amount < max_amount
  pub empty : amount ≡ 0 → (v.stark_key ≡ pos 0) × (v.token ≡ pos 0)
  pub full : amount ≢ 0 → (v.stark_key ≢ pos 0) × (v.token ≢ pos 0)

pub in_range-pos : (n : ℕ) → n < max_amount → in_range (pos n) ≡ true
in_range-pos n lt = ground (arith, lt)

pub pos_of_range : (b : ℤ) → in_range b ≡ true → (n : ℕ) × (b ≡ pos n) × (n < max_amount)
pos_of_range (pos n) e = (n, refl, ground (arith, e))
pos_of_range (negsuc n) e = absurd (cc e)

-- What the constructor gives.
abbrev pub Made : ℤ → ℤ → ℕ → VaultState → Type 0
Made k t n v =
    ((n ≡ 0) × (v ≡ vault (pos 0) (pos 0) (pos 0)))
    ⊎ ((n ≢ 0) × (k ≢ pos 0) × (t ≢ pos 0) × (v ≡ vault k t (pos n)))

ne_of_false : (k : ℤ) → not (pos 0 == k) ≡ true → k ≢ pos 0
ne_of_false k e q = let r = (eqb_int_iff (pos 0) k).1 (sym q) in cc (e, r)

-- The end of the constructor for a vault with a balance.
abbrev keyed : ℤ → ℤ → ℤ → Checked StarkErrorCode VaultState
keyed k t b = do
  stark_assert_ne (pos 0) k invalid_vault
  stark_assert_ne (pos 0) t invalid_vault
  returned (vault k t b)

-- A result that is returned.
abbrev in_code : VaultState → Checked StarkErrorCode VaultState
in_code v = returned v

value : {v w : VaultState} → in_code v ≡ in_code w → v ≡ w
value e = cc e

nonzero : (b : ℤ) (n : ℕ) → b ≡ pos n → (b == pos 0) ≡ false → n ≢ 0
nonzero b n q z e = let r = (eqb_int_iff b (pos 0)).1 (q ∙ ap pos e) in cc (z, r)

pos_ne : (n : ℕ) → n ≢ 0 → (pos n == pos 0) ≡ false
pos_ne n nz = ==_ne (pos n) (pos 0) (λ e. nz (pos-injective n 0 e))

make_vault-Made :
    (k t b : ℤ) (v : VaultState)
    → make_vault k t b ≡ returned v
    → (n : ℕ) × (b ≡ pos n) × (n < max_amount) × Made k t n v
unfolding make_vault
make_vault-Made k t b v e =
    let (r, e1) = after_assert (in_range b) out_of_range_balance _ v e in
    let (n, q, lt) = pos_of_range b r in
    elim (Bool-cases (b == pos 0)) [
      | inl z ↦
          let b0 = (eqb_int_iff b (pos 0)).0 z in
          let e2 : returned (vault (pos 0) (pos 0) b) ≡ returned v = rw z at e1 in
          (0, b0, omega arith, inl (refl, sym (value e2) ∙ ap (vault (pos 0) (pos 0)) b0))
      | inr z ↦
          let e2 : keyed k t b ≡ returned v = rw z at e1 in
          let (nk, e3) = after_assert (not (pos 0 == k)) invalid_vault _ v e2 in
          let (nt, e4) = after_assert (not (pos 0 == t)) invalid_vault _ v e3 in
          (
            n,
            q,
            lt,
            inr (
              nonzero b n q z,
              ne_of_false k nk,
              ne_of_false t nt,
              sym (value e4) ∙ ap (vault k t) q,
            ),
          )
    ]

pub make_vault-zero : (k t : ℤ) → make_vault k t (pos 0) ≡ returned (vault (pos 0) (pos 0) (pos 0))
unfolding make_vault
make_vault-zero k t = refl

pub make_vault-full :
    (k t : ℤ) (n : ℕ)
    → n < max_amount
    → n ≢ 0
    → k ≢ pos 0
    → t ≢ pos 0
    → make_vault k t (pos n) ≡ returned (vault k t (pos n))
unfolding make_vault
make_vault-full k t n lt nz nk nt = rw (
  in_range-pos n lt,
  pos_ne n nz,
  ==_ne (pos 0) k (λ e. nk (sym e)),
  ==_ne (pos 0) t (λ e. nt (sym e)),
)

Made-IsVault :
    (k t : ℤ) (n : ℕ) (v : VaultState)
    → n < max_amount
    → Made k t n v
    → IsVault v × (v.balance ≡ pos n)
Made-IsVault k t n v lt (inl (z, e)) = (
  subst IsVault (sym e) (record {
    amount = 0;
    balance_eq = refl;
    small = omega arith;
    empty = λ _. (refl, refl);
    full = λ nz. absurd (nz refl);
  }),
  ap (λ v. v.balance) e ∙ ap pos (sym z),
)
Made-IsVault k t n v lt (inr (nz, nk, nt, e)) = (
  subst IsVault (sym e) (record {
    amount = n;
    balance_eq = refl;
    small = lt;
    empty = λ z. absurd (nz z);
    full = λ _. (nk, nt);
  }),
  ap (λ v. v.balance) e,
)

-- What `add` went through when it returned.
pub record Added (v w : VaultState) (change : VaultUpdateData) : Type 0 where
  pub amount : ℕ
  pub checked : check_update v change ≡ returned tt
  pub sum : v.balance +ℤ change.diff ≡ pos amount
  pub small : amount < max_amount
  pub made : Made change.stark_key change.token amount w

pub add-Added :
    (v w : VaultState) (change : VaultUpdateData) → add v change ≡ returned w → Added v w change
unfolding add
add-Added v w change e =
    let (_, c, e1) = >>=-returned (check_update v change) _ w e in
    let (r, e2) = after_assert (in_range (v.balance +ℤ change.diff)) out_of_range_balance _ w e1 in
    let (n, q, lt, m) = make_vault-Made change.stark_key change.token _ w e2 in
    record { amount = n; checked = c; sum = q; small = lt; made = m }

-- A vault that `add` returns is well formed, also from one that is not, and has the sum as balance.
pub add-IsVault :
    (v w : VaultState) (change : VaultUpdateData)
    → add v change ≡ returned w
    → IsVault w × (w.balance ≡ v.balance +ℤ change.diff)
add-IsVault v w change e =
    let a = add-Added v w change e in
    let (i, b) = Made-IsVault _ _ a.amount w a.small a.made in (i, b ∙ sym a.sum)
