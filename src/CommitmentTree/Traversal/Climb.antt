-- ===== src/CommitmentTree/Traversal/Climb.antt =====
-- `update_necessary` keeps the invariant and never raises.
use starkex_data_availabilit.Prelude.{
  ℕ, zero, suc, ◌+◌, ◌*◌, ◌/◌, ◌<◌, ◌≡◌, ◌≢◌, true, false, Option, none, some, ◌==◌, ℕ_eq,
  if◌then◌else◌, not, arith, refl, ◌&&◌, Bool-cases, Option-cases, inl, inr, ◌∙◌, eqb_iff,
}
use starkex_data_availabilit.Prelude.Dict.{Dict, get-put, get-del, put-IsDict, IsDict, del-IsDict}
use starkex_data_availabilit.Prelude.Dict
use starkex_data_availabilit.CommitmentTree.Traversal.{
  TreeOps, sibling, combine_children, update_necessary,
}
use starkex_data_availabilit.CommitmentTree.Traversal.Ghost.{
  Status, idle, waiting, done, is_idle, is_waiting, is_done, set_at, is_queued, Consistent,
}

module _ {N C L : Type 0} (ops : TreeOps N C L) where
  -- The statuses after the children of `p` were combined.
  abbrev combined_at : (ℕ → Status) → ℕ → ℕ → Status
  combined_at st p = set_at (set_at (set_at st p done) (2 * p) idle) (2 * p + 1) idle

  abbrev combined_dict : Dict ℕ C → ℕ → C → Dict ℕ C
  combined_dict d p c = Dict.del (Dict.del (Dict.put d p c) (2 * p)) (2 * p + 1)

  get-combined :
      (d : Dict ℕ C) (p : ℕ) (c : C) (i : ℕ)
      → Dict.get (combined_dict d p c) i ≡ (
          if 2 * p + 1 == i
          then none
          else if 2 * p == i
          then none
          else if p == i
          then some c
          else Dict.get d i)
  get-combined d p c i = ground (
    arith,
    get-del (Dict.del (Dict.put d p c) (2 * p)) (2 * p + 1) i,
    get-del (Dict.put d p c) (2 * p) i,
    get-put d p i c,
  )

  module _ (st : ℕ → Status) (v : ℕ → Option C) (bound p : ℕ) (d : Dict ℕ C) (c : C) (pos : 0 < p)
      (h : Consistent ops st v bound p d) (wp : st p ≡ waiting) (vp : v p ≡ some c)
      (dl : st (2 * p) ≡ done) (dr : st (2 * p + 1) ≡ done) where
    links_step :
        (i : ℕ) → 1 < i → is_idle (combined_at st p i) ≡ not (is_waiting (combined_at st p (i / 2)))
    links_step i lt = ground (arith, h.links i lt)

    dict_step : (i : ℕ) → Dict.has (combined_dict d p c) i ≡ is_done (combined_at st p i)
    dict_step i = ground (arith, get-combined d p c i, h.dict i)

    values_step : (i : ℕ) (x : C) → Dict.get (combined_dict d p c) i ≡ some x → v i ≡ some x
    values_step i x e = ground (arith, get-combined d p c i, h.values i x, eqb_iff p i)

    waiting_before : (k : ℕ) → combined_at st p k ≡ waiting → (st k ≡ waiting) × (k ≢ p)
    waiting_before k e = ground arith

    unready_step :
        (k : ℕ)
        → combined_at st p k ≡ waiting
        → k ≢ p / 2
        → (is_done (combined_at st p (2 * k)) && is_done (combined_at st p (2 * k + 1))) ≡ false
    unready_step k e ne =
        let (w, kp) = waiting_before k e in let h' = h.unready k w kp in ground arith

    root_step : combined_at st p 1 ≢ idle
    root_step e = let r = h.root in ground arith

    combined-Consistent : Consistent ops (combined_at st p) v bound (p / 2) (combined_dict d p c)
    combined-Consistent = record {
      zero_idle = let z = h.zero_idle in ground arith;
      root = root_step;
      dict = dict_step;
      values = values_step;
      links = links_step;
      waits = λ k e. h.waits k (waiting_before k e).0;
      unready = unready_step;
      is_dict = del-IsDict _ (2 * p + 1) (del-IsDict _ (2 * p) (put-IsDict d p c h.is_dict));
    }

    same_queued : (k : ℕ) → is_queued (combined_at st p k) ≡ is_queued (st k)
    same_queued k = ground (arith, eqb_iff p k, eqb_iff (2 * p) k, eqb_iff (2 * p + 1) k)

  -- What the loop leaves behind: the queue's statuses are the same.
  pub record Climbed (st : ℕ → Status) (v : ℕ → Option C) (bound : ℕ) (r : Option (Dict ℕ C))
      : Type 0 where
    pub dict : Dict ℕ C
    pub status : ℕ → Status
    pub returns : r ≡ some dict
    pub consistent : Consistent ops status v bound 0 dict
    pub same_queue : (k : ℕ) → is_queued (status k) ≡ is_queued (st k)

  ready :
      (st : ℕ → Status) (v : ℕ → Option C) (bound k : ℕ) (d : Dict ℕ C)
      → Consistent ops st v bound k d
      → (j : ℕ) → st j ≡ done
      → (c : C) × (Dict.get d j ≡ some c) × (v j ≡ some c)
  ready st v bound k d h j e = elim (Option-cases (Dict.get d j)) [
    | inl missing ↦ let q = h.dict j in absurd (ground arith)
    | inr (c, found) ↦ (c, found, h.values j c found)
  ]

  -- The children of a waiting node that are both ready are combined.
  combine_children_lem :
      (st : ℕ → Status) (v : ℕ → Option C) (bound p : ℕ) (d : Dict ℕ C)
      → Consistent ops st v bound p d
      → st p ≡ waiting
      → st (2 * p) ≡ done
      → st (2 * p + 1) ≡ done
      → (c : C) × (v p ≡ some c) × (combine_children ops p d ≡ some (combined_dict d p c))
  unfolding combine_children
  combine_children_lem st v bound p d h wp dl dr =
      let w = (h.waits p wp).0 in
      let (a, ga, va) = ready st v bound p d h (2 * p) dl in
      let (b, gb, vb) = ready st v bound p d h (2 * p + 1) dr in
      let e : ops.combine a b ≡ some w.value = cc (w.left_eq, w.right_eq, w.combines, va, vb) in
      (w.value, w.value_eq, rw (ga, gb, e))

  half_lt : (i fuel : ℕ) → i < suc fuel → 1 < i → i / 2 < fuel
  half_lt i fuel lt pos = omega arith

  half_pos : (i : ℕ) → 1 < i → 0 < i / 2
  half_pos i pos = omega arith

  self_done : (st : ℕ → Status) (p : ℕ) → 0 < p → combined_at st p p ≡ done
  self_done st p pos = ground arith

  module _ (st : ℕ → Status) (v : ℕ → Option C) (bound i : ℕ) (d : Dict ℕ C)
      (h : Consistent ops st v bound (i / 2) d) (di : st i ≡ done) where
    sibling_done : Dict.has d (sibling i) ≡ true → st (sibling i) ≡ done
    sibling_done e = let q = h.dict (sibling i) in ground arith

    index_pos : Dict.has d (sibling i) ≡ true → 1 < i
    index_pos e = let q = sibling_done e in let z = h.zero_idle in ground arith

    parent_waits : Dict.has d (sibling i) ≡ true → st (i / 2) ≡ waiting
    parent_waits e = let q = h.links i (index_pos e) in ground arith

    siblings_done :
        Dict.has d (sibling i) ≡ true → (st (2 * (i / 2)) ≡ done) × (st (2 * (i / 2) + 1) ≡ done)
    siblings_done e = let q = sibling_done e in let p = index_pos e in ground arith

    unready_close :
        Dict.has d (sibling i) ≡ false
        → (k : ℕ) → st k ≡ waiting
        → k ≢ 0
        → (is_done (st (2 * k)) && is_done (st (2 * k + 1))) ≡ false
    unready_close e k w nz = let q = h.dict (sibling i) in let u = h.unready k w in ground arith

    close_at : Dict.has d (sibling i) ≡ false → Consistent ops st v bound 0 d
    close_at e = record {
      zero_idle = h.zero_idle;
      root = h.root;
      dict = h.dict;
      values = h.values;
      links = h.links;
      waits = h.waits;
      unready = unready_close e;
      is_dict = h.is_dict;
    }

  more_step :
      (fuel i : ℕ) (d d' : Dict ℕ C)
      → Dict.has d (sibling i) ≡ true
      → combine_children ops (i / 2) d ≡ some d'
      → update_necessary ops (suc fuel) i d ≡ update_necessary ops fuel (i / 2) d'
  unfolding update_necessary
  more_step fuel i d d' b e = rw (b, update_necessary) (rw e)

  last_step :
      (fuel i : ℕ) (d : Dict ℕ C)
      → Dict.has d (sibling i) ≡ false
      → update_necessary ops (suc fuel) i d ≡ some d
  unfolding update_necessary
  last_step fuel i d b = rw (b, update_necessary)

  -- From a dictionary whose entry at the index is ready, `update_necessary` with enough fuel returns,
  -- and the invariant holds again.
  pub update_necessary_lem :
      (fuel i : ℕ) (st : ℕ → Status) (v : ℕ → Option C) (bound : ℕ) (d : Dict ℕ C)
      → i < fuel
      → Consistent ops st v bound (i / 2) d
      → st i ≡ done
      → Climbed st v bound (update_necessary ops fuel i d)
  update_necessary_lem zero i st v bound d lt h di = absurd (omega arith)
  update_necessary_lem (suc fuel) i st v bound d lt h di =
      elim (Bool-cases (Dict.has d (sibling i))) [
        | inl both ↦
            let pos = index_pos st v bound i d h di both in
            let w = parent_waits st v bound i d h di both in
            let (dl, dr) = siblings_done st v bound i d h di both in
            let (c, vc, e) = combine_children_lem st v bound (i / 2) d h w dl dr in
            let rest =
              update_necessary_lem fuel (i / 2) (combined_at st (i / 2)) v bound
                (combined_dict d (i / 2) c) (half_lt i fuel lt pos)
                (combined-Consistent st v bound (i / 2) d c (half_pos i pos) h w vc dl dr)
                (self_done st (i / 2) (half_pos i pos)) in
            record {
              dict = rest.dict;
              status = rest.status;
              returns = more_step fuel i d (combined_dict d (i / 2) c) both e ∙ rest.returns;
              consistent = rest.consistent;
              same_queue = λ k.
                  rest.same_queue k
                  ∙ same_queued st v bound (i / 2) d c (half_pos i pos) h w vc dl dr k;
            }
        | inr single ↦ record {
          dict = d;
          status = st;
          returns = last_step fuel i d single;
          consistent = close_at st v bound i d h di single;
          same_queue = λ k. refl;
        }
      ]
