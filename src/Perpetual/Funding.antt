-- ===== src/Perpetual/Funding.antt =====
-- Funding that is applied twice.
use starkex_data_availabilit.Prelude.{◌≡◌, refl, sym, ap, ◌∙◌, [], ◌∷◌}
use starkex_data_availabilit.Prelude.Int.{
  ℤ, pos, ◌+ℤ◌, ◌-ℤ◌, ◌*ℤ◌, floor_div, sub_self, mul_zero, add_zero,
}
use starkex_data_availabilit.Prelude.Dict.{Dict}
use starkex_data_availabilit.Errors.{
  stark, perpetual, out_of_range_balance, out_of_range_funding_index, out_of_range_public_key,
  returned, raised, after_assert, >>=-returned,
}
use starkex_data_availabilit.Fields.{in_bounds}
use starkex_data_availabilit.Perpetual.{
  PositionAsset, make_asset, PositionState, position, check_asset_ids, check_asset_values,
  make_position, index_of, charge, apply_funding, fixed_point_unit, public_key_range, signed_range,
}

make_asset-fields :
    (b i : ℤ) (a : PositionAsset)
    → make_asset b i ≡ returned a
    → (a.balance ≡ b) × (a.cached_funding_index ≡ i)
unfolding make_asset
make_asset-fields b i a e =
    let (_, e1) = after_assert (in_bounds signed_range b) (stark out_of_range_balance) _ a e in
    let (_, e2) =
      after_assert (in_bounds signed_range i) (perpetual out_of_range_funding_index) _ a e1 in
    (
      ap (λ x. elim x [ returned y ↦ y.balance | raised c ↦ b ]) (sym e2),
      ap (λ x. elim x [ returned y ↦ y.cached_funding_index | raised c ↦ i ]) (sym e2),
    )

make_position-eq :
    (k c : ℤ) (assets : Dict ℤ PositionAsset) (p : PositionState)
    → make_position k c assets ≡ returned p
    → p ≡ position k c assets
unfolding make_position
make_position-eq k c assets p e =
    let (_, e1) =
      after_assert (in_bounds public_key_range k) (stark out_of_range_public_key) _ p e in
    let (_, e2) = after_assert (in_bounds signed_range c) (stark out_of_range_balance) _ p e1 in
    let (_, _, e3) = >>=-returned (check_asset_ids assets) _ p e2 in
    let (_, _, e4) = >>=-returned (check_asset_values assets) _ p e3 in
    ap (λ x. elim x [ returned y ↦ y | raised c ↦ p ]) (sym e4)

-- An asset whose index is the global one pays nothing.
no_funding : (d b i j : ℤ) → j ≡ i → d -ℤ b *ℤ (i -ℤ j) ≡ d
no_funding d b i j e =
    let z : b *ℤ (i -ℤ j) ≡ pos 0 =
      ap (λ x. b *ℤ (i -ℤ x)) e ∙ ap (λ x. b *ℤ x) (sub_self i) ∙ mul_zero b in
    ap (λ x. d -ℤ x) z ∙ add_zero d

-- An asset that has the global index is kept.
charge_kept :
    (indices : Dict ℤ ℤ) (id g : ℤ) (u : PositionAsset) (rest : Dict ℤ PositionAsset) (e : ℤ)
    → index_of indices id ≡ returned g
    → u.cached_funding_index ≡ g
    → make_asset u.balance g ≡ returned u
    → charge indices rest e ≡ returned (e, rest)
    → charge indices ((id, u) ∷ rest) e ≡ returned (e, (id, u) ∷ rest)
unfolding charge
charge_kept indices id g u rest e found i made again =
    rw (found, made, no_funding e u.balance g u.cached_funding_index i, again) refl

charge_again :
    (indices : Dict ℤ ℤ) (assets updated : Dict ℤ PositionAsset) (d d' e : ℤ)
    → charge indices assets d ≡ returned (d', updated)
    → charge indices updated e ≡ returned (e, updated)
unfolding charge
charge_again indices [] updated d d' e h =
    let q : [] ≡ updated = ap (λ x. elim x [ returned y ↦ y.1 | raised c ↦ [] ]) h in rw (← q) refl
charge_again indices ((id, a) ∷ assets) updated d d' e h =
    let (g, found, h1) = >>=-returned (index_of indices id) _ (d', updated) h in
    let (u, made, h2) = >>=-returned (make_asset a.balance g) _ (d', updated) h1 in
    let (rest, charged, h3) =
      >>=-returned (charge indices assets (d -ℤ a.balance *ℤ (g -ℤ a.cached_funding_index))) _
        (d', updated) h2 in
    let q : (id, u) ∷ rest.1 ≡ updated =
      ap (λ x. elim x [ returned y ↦ y.1 | raised c ↦ updated ]) h3 in
    let (b, i) = make_asset-fields a.balance g u made in
    let again = charge_again indices assets rest.1 _ rest.0 e charged in
    rw (← q) (charge_kept indices id g u rest.1 e found i (ap (λ x. make_asset x g) b ∙ made) again)

-- Funding that apply_funding has applied changes nothing when the same indices are applied again:
-- on the position that it returned, with the same indices, it returns that position.
pub apply_funding-again :
    (p funded : PositionState) (indices : Dict ℤ ℤ)
    → apply_funding p indices ≡ returned funded
    → apply_funding funded indices ≡ returned funded
unfolding apply_funding
apply_funding-again p funded indices h =
    let (charged, e, made) = >>=-returned (charge indices p.assets (pos 0)) _ funded h in
    let made_eq =
      make_position-eq p.public_key (p.collateral_balance +ℤ floor_div charged.0 fixed_point_unit)
        charged.1 funded made in
    applied (p.collateral_balance +ℤ floor_div charged.0 fixed_point_unit) charged.1 made_eq made
      (charge_again indices p.assets charged.1 (pos 0) charged.0 (pos 0) e)
  where
    applied :
        (c : ℤ) (assets : Dict ℤ PositionAsset)
        → funded ≡ position p.public_key c assets
        → make_position p.public_key c assets ≡ returned funded
        → charge indices assets (pos 0) ≡ returned (pos 0, assets)
        → apply_funding funded indices ≡ returned funded
    applied c assets made_eq made again =
        rw
          (
            ap (λ z. z.assets) made_eq,
            ap (λ z. z.public_key) made_eq,
            ap (λ z. z.collateral_balance) made_eq,
            again,
          )
          (ap (λ y. make_position p.public_key y assets) (add_zero c) ∙ made ∙ ap returned made_eq)
