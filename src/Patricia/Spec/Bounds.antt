-- ===== src/Patricia/Spec/Bounds.antt =====
-- The triples of the commitment stay within their bounds.
use starkex_data_availabilit.Prelude.{
  ℕ, zero, suc, ◌+◌, ◌^◌, ◌<◌, ◌≡◌, ◌≢◌, refl, sym, ap, ◌∙◌, false, ◌==◌, ℕ_eq, List_eq, arith,
  Bool-cases, inl, inr, eqb_iff, some, lt→ltb,
}
use starkex_data_availabilit.Bytes.{Bytes, IsHash, big_endian, from_bytes, to_bytes, to_bytes_len}
use starkex_data_availabilit.Bytes.RoundTrip.{
  length-big_endian, big_endian-IsBytes, from_bytes-big_endian,
}
use starkex_data_availabilit.CommitmentTree.UpdateTree.Correct.{two_pow}
use starkex_data_availabilit.Patricia.Nodes.{
  HashFunc, empty_node_hash, is_empty_hash, fact_hash, edge_fact,
}
use starkex_data_availabilit.Patricia.Nodes.RoundTrip.{
  path_fits, is_empty_hash-true, ne_of_is_empty_hash,
}
use starkex_data_availabilit.Patricia.Spec.{
  Tree, Edge, no_edge, edge_hash, commitment, join, virtual, IsTree, IsHashFunc, IsEdge,
}

pub big_endian-IsHash : (v : ℕ) → IsHash (big_endian 32 v)
big_endian-IsHash v = record { size = length-big_endian 32 v; bytes = big_endian-IsBytes 32 v }

pub empty_node_hash-IsHash : IsHash empty_node_hash
unfolding empty_node_hash
empty_node_hash-IsHash = record { size = refl; bytes = omega arith }

pub from_bytes_empty : from_bytes empty_node_hash ≡ 0
unfolding from_bytes empty_node_hash
from_bytes_empty = refl

pub to_bytes_eq : (v : ℕ) → v < 256 ^ 32 → to_bytes v ≡ some (big_endian 32 v)
unfolding to_bytes to_bytes_len
to_bytes_eq v h = rw (lt→ltb v (256 ^ 32) h)

pow_next : (n : ℕ) → 2 ^ (n + 1) ≡ 2 ^ n + 2 ^ n
pow_next n = let e : n + 1 ≡ suc n = omega arith in rw e (two_pow n)

pub shift_lt : (p n : ℕ) → p < 2 ^ n → (p < 2 ^ (n + 1)) × (p + 2 ^ n < 2 ^ (n + 1))
shift_lt p n h = omega (arith, pow_next n)

-- The edge one step above, to either side.
abbrev pub up_left : Edge → Edge
up_left e = record { bottom = e.bottom; path = e.path; length = e.length + 1 }

abbrev pub up_right : Edge → Edge
up_right e = record { bottom = e.bottom; path = e.path + 2 ^ e.length; length = e.length + 1 }

-- The four ways in which two subtrees are joined.
pub data JoinCases (hash_func : HashFunc) (l r j : Edge) : Type 0 where
  both_empty :
      l.bottom ≡ empty_node_hash
      → r.bottom ≡ empty_node_hash
      → j ≡ no_edge empty_node_hash
      → JoinCases hash_func l r j
  only_right :
      l.bottom ≡ empty_node_hash
      → r.bottom ≢ empty_node_hash
      → j ≡ up_right r
      → JoinCases hash_func l r j
  only_left :
      l.bottom ≢ empty_node_hash
      → r.bottom ≡ empty_node_hash
      → j ≡ up_left l
      → JoinCases hash_func l r j
  both :
      l.bottom ≢ empty_node_hash
      → r.bottom ≢ empty_node_hash
      → j ≡ no_edge (hash_func (commitment hash_func l) (commitment hash_func r))
      → JoinCases hash_func l r j

pub join-cases : (hash_func : HashFunc) (l r : Edge) → JoinCases hash_func l r (join hash_func l r)
unfolding join
join-cases hash_func l r = elim (Bool-cases (is_empty_hash l.bottom)) [
  | inl el ↦ elim (Bool-cases (is_empty_hash r.bottom)) [
    | inl er ↦ both_empty (is_empty_hash-true _ el) (is_empty_hash-true _ er) (rw (el, er))
    | inr er ↦ only_right (is_empty_hash-true _ el) (ne_of_is_empty_hash _ er) (rw (el, er))
  ]
  | inr el ↦ elim (Bool-cases (is_empty_hash r.bottom)) [
    | inl er ↦ only_left (ne_of_is_empty_hash _ el) (is_empty_hash-true _ er) (rw (el, er))
    | inr er ↦ both (ne_of_is_empty_hash _ el) (ne_of_is_empty_hash _ er) (rw (el, er))
  ]
]

-- A tree whose two halves join to nothing has two empty halves.
pub join-empty :
    (hash_func : HashFunc) (l r j : Edge)
    → (hash_func (commitment hash_func l) (commitment hash_func r) ≢ empty_node_hash)
    → JoinCases hash_func l r j
    → j.bottom ≡ empty_node_hash
    → (l.bottom ≡ empty_node_hash) × (r.bottom ≡ empty_node_hash)
join-empty hash_func l r j nz (both_empty pl pr pj) q = (pl, pr)
join-empty hash_func l r j nz (only_right pl nr pj) q =
    absurd (nr (sym (ap (λ (e : Edge). e.bottom) pj) ∙ q))
join-empty hash_func l r j nz (only_left nl pr pj) q =
    absurd (nl (sym (ap (λ (e : Edge). e.bottom) pj) ∙ q))
join-empty hash_func l r j nz (both nl nr pj) q =
    absurd (nz (sym (ap (λ (e : Edge). e.bottom) pj) ∙ q))

module _ (hash_func : HashFunc) (good : IsHashFunc hash_func) where
  edge_value :
      (h : ℕ) (e : Edge)
      → h < 256
      → IsEdge h e
      → from_bytes (hash_func e.bottom (big_endian 32 e.path)) + e.length < 256 ^ 32
  edge_value h e small w = omega (
    arith,
    good.bound e.bottom (big_endian 32 e.path) w.hash (big_endian-IsHash e.path),
    w.length,
  )

  -- The hash of an edge fact, as the code computes it.
  pub fact_hash-edge :
      (h : ℕ) (e : Edge)
      → h < 256
      → IsEdge h e
      → fact_hash hash_func (edge_fact e.bottom e.path e.length) ≡ some (edge_hash hash_func e)
  unfolding fact_hash edge_hash
  fact_hash-edge h e small w = rw (
    to_bytes_eq e.path (path_fits e.path e.length (omega (arith, w.length)) w.path),
    to_bytes_eq _ (edge_value h e small w),
  )

  pub commitment-IsHash : (h : ℕ) (e : Edge) → IsEdge h e → IsHash (commitment hash_func e)
  unfolding commitment edge_hash
  commitment-IsHash h e w = elim (Bool-cases (e.length == 0)) [
    | inl z ↦ rw z w.hash
    | inr z ↦ rw z (big_endian-IsHash _)
  ]

  -- Only the empty tree commits to the zero hash.
  pub commitment-nonempty :
      (h : ℕ) (e : Edge)
      → h < 256
      → IsEdge h e
      → e.bottom ≢ empty_node_hash
      → commitment hash_func e ≢ empty_node_hash
  unfolding commitment edge_hash
  commitment-nonempty h e small w ne = elim (Bool-cases (e.length == 0)) [
    | inl z ↦ rw z ne
    | inr z ↦ rw z (λ p. absurd (
        omega (
          arith,
          from_bytes-big_endian 32 _ (edge_value h e small w),
          ap from_bytes p,
          from_bytes_empty,
          (λ (q : e.length ≡ 0). length_nonzero e.length z q),
        )))
  ]
    where
      length_nonzero : (n : ℕ) → (n == 0) ≡ false → n ≡ 0 → ⊥
      length_nonzero n h q = ground arith

  pub commitment-empty :
      (h : ℕ) (e : Edge)
      → IsEdge h e
      → e.bottom ≡ empty_node_hash
      → commitment hash_func e ≡ empty_node_hash
  unfolding commitment
  commitment-empty h e w p = rw ((eqb_iff e.length 0).1 (w.empty p).1) p

  no_edge-IsEdge : (h : ℕ) (b : Bytes) → IsHash b → IsEdge h (no_edge b)
  no_edge-IsEdge h b w = record {
    hash = w;
    path = omega arith;
    length = omega arith;
    empty = λ p. (refl, refl);
  }

  left-IsEdge :
      (h : ℕ) (e : Edge)
      → IsEdge h e
      → e.bottom ≢ empty_node_hash
      → IsEdge (suc h) (record { bottom = e.bottom; path = e.path; length = e.length + 1 })
  left-IsEdge h e w ne = record {
    hash = w.hash;
    path = (shift_lt e.path e.length w.path).0;
    length = omega (arith, w.length);
    empty = λ p. absurd (ne p);
  }

  right-IsEdge :
      (h : ℕ) (e : Edge)
      → IsEdge h e
      → e.bottom ≢ empty_node_hash
      → IsEdge
          (suc h)
          (record { bottom = e.bottom; path = e.path + 2 ^ e.length; length = e.length + 1 })
  right-IsEdge h e w ne = record {
    hash = w.hash;
    path = (shift_lt e.path e.length w.path).1;
    length = omega (arith, w.length);
    empty = λ p. absurd (ne p);
  }

  pub join-IsEdge :
      (h : ℕ) (l r : Edge) → IsEdge h l → IsEdge h r → IsEdge (suc h) (join hash_func l r)
  unfolding join
  join-IsEdge h l r wl wr = elim (Bool-cases (is_empty_hash l.bottom)) [
    | inl el ↦ elim (Bool-cases (is_empty_hash r.bottom)) [
      | inl er ↦ rw (el, er) (no_edge-IsEdge (suc h) empty_node_hash empty_node_hash-IsHash)
      | inr er ↦ rw (el, er) (right-IsEdge h r wr (ne_of_is_empty_hash r.bottom er))
    ]
    | inr el ↦ elim (Bool-cases (is_empty_hash r.bottom)) [
      | inl er ↦ rw (el, er) (left-IsEdge h l wl (ne_of_is_empty_hash l.bottom el))
      | inr er ↦
          rw (el, er)
            (no_edge-IsEdge (suc h) _
              (good.hash _ _ (commitment-IsHash h l wl) (commitment-IsHash h r wr)))
    ]
  ]

  pub virtual-IsEdge : (h : ℕ) (t : Tree h) → IsTree h t → IsEdge h (virtual hash_func h t)
  unfolding virtual
  virtual-IsEdge zero b w = record {
    hash = w;
    path = omega arith;
    length = omega arith;
    empty = λ p. (refl, refl);
  }
  virtual-IsEdge (suc h) t w =
      join-IsEdge h _ _ (virtual-IsEdge h t.0 w.0) (virtual-IsEdge h t.1 w.1)

  -- The hash of a binary node is not the empty hash.
  pub children_nonzero :
      (h : ℕ) (t : Tree (suc h))
      → IsTree (suc h) t
      → hash_func
          (commitment hash_func (virtual hash_func h t.0))
          (commitment hash_func (virtual hash_func h t.1))
        ≢ empty_node_hash
  children_nonzero h t w =
      good.nonzero _ _ (commitment-IsHash h _ (virtual-IsEdge h t.0 w.0))
        (commitment-IsHash h _ (virtual-IsEdge h t.1 w.1))
