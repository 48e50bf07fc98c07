-- ===== src/Patricia/Nodes/RoundTrip.antt =====
-- A fact is read back from its serialization, and the length tells its class.
use starkex_data_availabilit.Prelude.{
  ℕ, ◌^◌, ◌<◌, ◌≡◌, ◌≢◌, refl, ap, some, [], ◌∷◌, ◌++◌, arith, length, length-append,
  take-append_of_len, drop-append_of_len, take_all, drop_all, take, drop, ==_ne, lt→ltb,
  list_beq_iff, ℕ_eq, List_eq, true, false, ap₂, zero, suc,
}
use native.Mathlib.Nat.{le_trans, pow-le-pow_right}
use starkex_data_availabilit.Bytes.{
  Bytes, IsHash, to_bytes, from_bytes, blockify, blockify_rounds, hash_bytes,
}
use starkex_data_availabilit.Bytes.RoundTrip.{to_bytes_len-fits}
use starkex_data_availabilit.Storage.Objects.{ReadsBack}
use starkex_data_availabilit.Patricia.Nodes.{
  PatriciaNodeFact, empty_fact, binary_fact, edge_fact, empty_node_hash, is_empty_hash, make_binary,
  make_edge, serialize, deserialize, patricia_class,
}

-- What the constructors assert, and the sizes that the comments of the source name.
abbrev pub IsFact : PatriciaNodeFact → Type 0
IsFact empty_fact = Unit
IsFact (binary_fact l r) = IsHash l × IsHash r × (l ≢ empty_node_hash) × (r ≢ empty_node_hash)
IsFact (edge_fact b p n) = IsHash b × (0 < n) × (n < 256) × (p < 2 ^ n)

pub is_empty_hash-true : (b : Bytes) → is_empty_hash b ≡ true → b ≡ empty_node_hash
unfolding is_empty_hash
is_empty_hash-true b h = (list_beq_iff b empty_node_hash).0 h

pub is_empty_hash-empty : is_empty_hash empty_node_hash ≡ true
unfolding is_empty_hash
is_empty_hash-empty = refl

pub is_empty_hash-false : (b : Bytes) → b ≢ empty_node_hash → is_empty_hash b ≡ false
unfolding is_empty_hash
is_empty_hash-false b ne = ==_ne b empty_node_hash ne

pub ne_of_is_empty_hash : (b : Bytes) → is_empty_hash b ≡ false → b ≢ empty_node_hash
ne_of_is_empty_hash b h e = cc (h, ap is_empty_hash e, is_empty_hash-empty)

pub make_binary_lem :
    (l r : Bytes)
    → l ≢ empty_node_hash
    → r ≢ empty_node_hash
    → make_binary l r ≡ some (binary_fact l r)
unfolding make_binary
make_binary_lem l r hl hr = rw (is_empty_hash-false l hl, is_empty_hash-false r hr)

pub make_edge_lem :
    (b : Bytes) (p n : ℕ) → 0 < n → p < 2 ^ n → make_edge b p n ≡ some (edge_fact b p n)
unfolding make_edge
make_edge_lem b p n hn hp = rw (lt→ltb 0 n hn, lt→ltb p (2 ^ n) hp)

deserialize_binary :
    (bs : Bytes)
    → length bs ≡ 64
    → deserialize bs ≡ make_binary (take hash_bytes bs) (drop hash_bytes bs)
unfolding deserialize
deserialize_binary bs e = rw e

deserialize_edge :
    (bs b p n : Bytes)
    → length bs ≡ 65
    → blockify bs hash_bytes ≡ some (b ∷ p ∷ n ∷ [])
    → deserialize bs ≡ make_edge b (from_bytes p) (from_bytes n)
unfolding deserialize
deserialize_edge bs b p n e f = rw (e, f)

-- One more chunk.
blockify_round :
    (n : ℕ) (bs chunk rest : Bytes)
    → 0 < length bs
    → take hash_bytes bs ≡ chunk
    → drop hash_bytes bs ≡ rest
    → blockify_rounds (suc n) bs hash_bytes ≡ chunk ∷ blockify_rounds n rest hash_bytes
unfolding blockify_rounds
blockify_round n [] chunk rest h e f = absurd (omega arith)
blockify_round n (x ∷ bs) chunk rest h e f = ap₂ (λ c r. c ∷ blockify_rounds n r hash_bytes) e f

blockify_rounds-nil : (n : ℕ) → blockify_rounds n [] hash_bytes ≡ []
unfolding blockify_rounds
blockify_rounds-nil zero = refl
blockify_rounds-nil (suc n) = refl

blockify_edge :
    (b p n : Bytes)
    → length b ≡ 32
    → length p ≡ 32
    → length n ≡ 1
    → blockify (b ++ (p ++ n)) hash_bytes ≡ some (b ∷ p ∷ n ∷ [])
unfolding blockify
blockify_edge b p n hb hp hn =
    let len : length (b ++ (p ++ n)) ≡ 65 =
      omega (arith, length-append b (p ++ n), length-append p n) in
    let len' : length (p ++ n) ≡ 33 = omega (arith, length-append p n) in
    rw (
      len,
      blockify_round 64 (b ++ (p ++ n)) b (p ++ n) (omega arith)
          (take-append_of_len 32 b (p ++ n) hb) (drop-append_of_len 32 b (p ++ n) hb),
      blockify_round 63 (p ++ n) p n (omega arith) (take-append_of_len 32 p n hp)
          (drop-append_of_len 32 p n hp),
      blockify_round 62 n n [] (omega arith) (take_all 32 n (omega arith))
          (drop_all 32 n (omega arith)),
      blockify_rounds-nil 62,
    )

-- A path of fewer than 256 bits fits in 32 bytes.
pub path_fits : (p n : ℕ) → n < 256 → p < 2 ^ n → p < 256 ^ 32
path_fits p n small fits =
    le_trans fits (pow-le-pow_right {n = 2} (omega arith) {i = n} {j = 256} (omega arith))

-- Every node fact serializes, and is read back from its bytes by `deserialize`: the empty fact, a
-- binary fact of two non-empty hashes, and an edge fact with a hash of 32 bytes, a length from 1 to
-- 255, and a path that fits the length.
pub PatriciaNodeFact-ReadsBack : (f : PatriciaNodeFact) → IsFact f → ReadsBack patricia_class f
unfolding serialize to_bytes
PatriciaNodeFact-ReadsBack empty_fact h = ([], refl, unfold deserialize in refl)
PatriciaNodeFact-ReadsBack (binary_fact l r) (hl, hr, nl, nr) = (
  l ++ r,
  refl,
  rw (
    deserialize_binary (l ++ r) (omega (arith, length-append l r, hl.size, hr.size)),
    take-append_of_len 32 l r hl.size,
    drop-append_of_len 32 l r hl.size,
    make_binary_lem l r nl nr,
  ),
)
PatriciaNodeFact-ReadsBack (edge_fact b p n) (hb, pos, small, fits) =
    let (pb, ep, vp, lp, _) = to_bytes_len-fits p 32 (path_fits p n small fits) in
    let (nb, en, vn, ln, _) = to_bytes_len-fits n 1 (omega arith) in
    (
      b ++ (pb ++ nb),
      rw (ep, en),
      rw (
        deserialize_edge (b ++ (pb ++ nb)) b pb nb
            (omega (arith, length-append b (pb ++ nb), length-append pb nb, hb.size))
            (blockify_edge b pb nb hb.size lp ln),
        vp,
        vn,
        make_edge_lem b p n pos fits,
      ),
    )
