-- ===== src/Perpetual/Packing.antt =====
-- The message of an asset, which is hashed into the hash of its position.
use starkex_data_availabilit.Prelude.{
  ℕ, suc, ◌+◌, ◌-◌, ◌*◌, ◌^◌, ◌<◌, ◌≡◌, refl, sym, ap, ◌∙◌, arith, some, none, true, false, leb, [],
  lt→ltb,
}
use starkex_data_availabilit.Prelude.Int.{ℤ, pos, negsuc, ◌-ℤ◌, difference}
use starkex_data_availabilit.Bytes.{Bytes, to_bytes, to_bytes_len, big_endian, from_bytes}
use starkex_data_availabilit.Bytes.RoundTrip.{from_bytes-big_endian}
use starkex_data_availabilit.Fields.{in_bounds}
use starkex_data_availabilit.Perpetual.{
  PositionAsset, signed_range, asset_id_range, signed_range_size, calculate_message, to_bytes_int,
}

size_eq : signed_range_size ≡ pos 18446744073709551616
size_eq = refl

shifted :
    (x : ℤ)
    → in_bounds signed_range x ≡ true
    → (n : ℕ) × (x -ℤ signed_range.lower_bound ≡ pos n)
      × (n < 18446744073709551616)
      × (x ≡ difference n 9223372036854775808)
shifted (pos a) h =
    let c : leb 9223372036854775808 (a + 9223372036854775808) ≡ true = ground arith in
    (a + 9223372036854775808, refl, ground (arith, h), rw c (ap pos (omega arith)))
shifted (negsuc a) h =
    let small : suc a < 9223372036854775809 = ground (arith, h) in
    let c : leb (suc a) 9223372036854775808 ≡ true = ground arith in
    let d : leb 9223372036854775808 (9223372036854775808 - suc a) ≡ false = ground arith in
    (9223372036854775808 - suc a, rw c refl, omega arith, rw d (ap negsuc (omega arith)))

-- An asset and its id within their bounds.
pub record IsAsset (a : PositionAsset) (asset_id : ℤ) : Type 0 where
  pub balance_ok : in_bounds signed_range a.balance ≡ true
  pub index_ok : in_bounds signed_range a.cached_funding_index ≡ true
  pub id_ok : in_bounds asset_id_range asset_id ≡ true

natural_id :
    (x : ℤ)
    → in_bounds asset_id_range x ≡ true
    → (n : ℕ) × (x ≡ pos n) × (n < 1329227995784915872903807060280344576)
natural_id (pos n) h = (n, refl, ground (arith, h))
natural_id (negsuc n) h = absurd (cc h)

abbrev pack : ℕ → ℕ → ℕ → ℕ
pack id index balance = (id * 18446744073709551616 + index) * 18446744073709551616 + balance

-- A message is below 2 ^ 248.
pack_lt :
    (id index balance : ℕ)
    → id < 1329227995784915872903807060280344576
    → index < 18446744073709551616
    → balance < 18446744073709551616
    → pack id index balance < 256 ^ 32
pack_lt id index balance p q r = omega arith

pack-injective :
    (i j x y b c : ℕ)
    → x < 18446744073709551616
    → y < 18446744073709551616
    → b < 18446744073709551616
    → c < 18446744073709551616
    → pack i x b ≡ pack j y c
    → (i ≡ j) × (x ≡ y) × (b ≡ c)
pack-injective i j x y b c hx hy hb hc e =
    let upper : i * 18446744073709551616 + x ≡ j * 18446744073709551616 + y = omega arith in
    (omega arith, omega arith, omega arith)

to_bytes-fits : (n : ℕ) → n < 256 ^ 32 → to_bytes n ≡ some (big_endian 32 n)
unfolding to_bytes to_bytes_len
to_bytes-fits n h = rw (lt→ltb n (256 ^ 32) h) refl

-- The numbers that the message of an asset packs.
packed :
    (a : PositionAsset) (asset_id : ℤ)
    → IsAsset a asset_id
    → (id index balance : ℕ) × (asset_id ≡ pos id)
      × (a.cached_funding_index ≡ difference index 9223372036854775808)
      × (a.balance ≡ difference balance 9223372036854775808)
      × (id < 1329227995784915872903807060280344576)
      × (index < 18446744073709551616)
      × (balance < 18446744073709551616)
      × (calculate_message a asset_id ≡ some (big_endian 32 (pack id index balance)))
unfolding calculate_message to_bytes_int
packed a asset_id w =
    let (id, e, lt) = natural_id asset_id w.id_ok in
    let (index, f, lt1, f1) = shifted a.cached_funding_index w.index_ok in
    let (balance, g, lt2, g1) = shifted a.balance w.balance_ok in
    (
      id,
      index,
      balance,
      e,
      f1,
      g1,
      lt,
      lt1,
      lt2,
      rw (e, f, g) (to_bytes-fits (pack id index balance) (pack_lt id index balance lt lt1 lt2)),
    )

-- On an asset and an asset id within their bounds, calculate_message succeeds, and any other asset
-- and asset id within their bounds that have the same message have the same id, the same cached
-- funding index and the same balance.
pub calculate_message-injective :
    (a b : PositionAsset) (i j : ℤ)
    → IsAsset a i
    → IsAsset b j
    → (m : Bytes) × (calculate_message a i ≡ some m)
      × (calculate_message b j ≡ some m
          → (i ≡ j) × (a.cached_funding_index ≡ b.cached_funding_index) × (a.balance ≡ b.balance))
calculate_message-injective a b i j wa wb =
    let (ia, xa, ba, e1, e2, e3, l1, l2, l3, m1) = packed a i wa in
    let (ib, xb, bb, f1, f2, f3, k1, k2, k3, m2) = packed b j wb in
    (
      big_endian 32 (pack ia xa ba),
      m1,
      λ same.
          let q = ap (λ o. elim o [ some y ↦ y | none ↦ [] ]) (sym m2 ∙ same) in
          let n : pack ib xb bb ≡ pack ia xa ba =
            sym (from_bytes-big_endian 32 (pack ib xb bb) (pack_lt ib xb bb k1 k2 k3))
            ∙ ap from_bytes q
            ∙ from_bytes-big_endian 32 (pack ia xa ba) (pack_lt ia xa ba l1 l2 l3) in
          let (ei, ex, eb) = pack-injective ib ia xb xa bb ba k2 l2 k3 l3 n in
          (
            e1 ∙ ap pos (sym ei) ∙ sym f1,
            e2 ∙ ap (λ z. difference z 9223372036854775808) (sym ex) ∙ sym f2,
            e3 ∙ ap (λ z. difference z 9223372036854775808) (sym eb) ∙ sym f3,
          ),
    )
