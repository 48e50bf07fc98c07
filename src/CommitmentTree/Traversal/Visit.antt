-- ===== src/CommitmentTree/Traversal/Visit.antt =====
-- One visit keeps the invariant: a node without children is stored, one with children waits.
use starkex_data_availabilit.Prelude.{
  ℕ, ◌+◌, ◌*◌, ◌/◌, ◌<◌, ◌≡◌, ◌≢◌, true, false, Option, some, List, ℕ_eq, arith, eqb_iff, ◌∙◌, sym,
  inl, inr, subst, ◌⊎◌,
}
use starkex_data_availabilit.Prelude.Dict.{Dict, get-put, put-IsDict, IsDict}
use starkex_data_availabilit.Prelude.Dict
use starkex_data_availabilit.CommitmentTree.Traversal.{TreeOps, NodeType}
use starkex_data_availabilit.CommitmentTree.Traversal.Ghost.{
  Status, idle, queued, waiting, done, is_idle, is_queued, set_at, Waits, Consistent,
}
use starkex_data_availabilit.CommitmentTree.Traversal.Queue.{QueueOk}

module _ {N C L : Type 0} (ops : TreeOps N C L) where
  -- A state of the queue and the dictionary in which the root has the value `c`.
  pub record Good (bound : ℕ) (c : C) (q : List (NodeType N L)) (d : Dict ℕ C) : Type 0 where
    pub status : ℕ → Status
    pub ghost : ℕ → Option C
    pub consistent : Consistent ops status ghost bound 0 d
    pub queue : QueueOk ops status ghost bound q
    pub root : ghost 1 ≡ some c

  module _ (st : ℕ → Status) (v : ℕ → Option C) (bound : ℕ) (d : Dict ℕ C)
      (h : Consistent ops st v bound 0 d) (i : ℕ) (qi : is_queued (st i) ≡ true) where
    pub index_pos : 0 < i
    index_pos = let z = h.zero_idle in ground arith

    parent_waits : 1 < i → st (i / 2) ≡ waiting
    parent_waits lt = let l = h.links i lt in ground arith

    -- Storing the value of a queued index.
    pub stored-Consistent :
        (c : C) → v i ≡ some c → Consistent ops (set_at st i done) v bound (i / 2) (Dict.put d i c)
    stored-Consistent c vi = record {
      zero_idle = let z = h.zero_idle in ground arith;
      root = λ e. let r = h.root in ground arith;
      dict = λ j. ground (arith, h.dict j, get-put d i j c);
      values = λ j x e. ground (arith, h.values j x, get-put d i j c, eqb_iff i j);
      links = λ j lt. ground (arith, h.links j lt);
      waits = λ k e. h.waits k (ground arith);
      unready = λ k e ne. let u = h.unready k in ground arith;
      is_dict = put-IsDict d i c h.is_dict;
    }

    abbrev pub expanded : ℕ → Status
    expanded = set_at (set_at (set_at st i waiting) (2 * i) queued) (2 * i + 1) queued

    abbrev pub valued : C → C → ℕ → Option C
    valued a b = set_at (set_at v (2 * i) (some a)) (2 * i + 1) (some b)

    pub children_idle : (st (2 * i) ≡ idle) × (st (2 * i + 1) ≡ idle)
    children_idle =
        let p = index_pos in
        let l = h.links (2 * i) (omega arith) in
        let r = h.links (2 * i + 1) (omega arith) in ground arith

    pub valued_same : (a b : C) (j : ℕ) → is_idle (st j) ≡ false → valued a b j ≡ v j
    valued_same a b j ne =
        let (l, r) = children_idle in ground (arith, eqb_iff (2 * i) j, eqb_iff (2 * i + 1) j)

    pub child_left : (a b : C) → valued a b (2 * i) ≡ some a
    child_left a b = ground arith

    pub child_right : (a b : C) → valued a b (2 * i + 1) ≡ some b
    child_right a b = ground arith

    other_children :
        (a b : C) (k : ℕ)
        → k ≢ i
        → (valued a b (2 * k) ≡ v (2 * k)) × (valued a b (2 * k + 1) ≡ v (2 * k + 1))
    other_children a b k ne = ground arith

    moved_Waits :
        (a b : C) (k : ℕ)
        → k ≢ i
        → is_idle (st k) ≡ false
        → Waits ops v k
        → Waits ops (valued a b) k
    moved_Waits a b k ne live w =
        let (l, r) = other_children a b k ne in
        record {
          left = w.left;
          right = w.right;
          value = w.value;
          left_eq = l ∙ w.left_eq;
          right_eq = r ∙ w.right_eq;
          value_eq = valued_same a b k live ∙ w.value_eq;
          combines = w.combines;
        }

    expanded_waiting : (k : ℕ) → expanded k ≡ waiting → (k ≡ i) ⊎ ((st k ≡ waiting) × (k ≢ i))
    expanded_waiting k e = ground arith

    -- A queued node with children waits for them.
    pub expanded-Consistent :
        (a b c : C)
        → v i ≡ some c
        → ops.combine a b ≡ some c
        → i < bound
        → Consistent ops expanded (valued a b) bound 0 d
    expanded-Consistent a b c vi comb lt = record {
      zero_idle = let z = h.zero_idle in let p = index_pos in ground arith;
      root = λ e. let r = h.root in ground arith;
      dict = λ j. let (l, r) = children_idle in ground (arith, h.dict j);
      values = λ j x e. valued_same a b j (let q = h.dict j in ground arith) ∙ h.values j x e;
      links = λ j gt. let (l, r) = children_idle in ground (arith, h.links j gt);
      waits = λ k e. elim (expanded_waiting k e) [
        | inl same ↦ (
          subst (Waits ops (valued a b)) (sym same) (record {
            left = a;
            right = b;
            value = c;
            left_eq = child_left a b;
            right_eq = child_right a b;
            value_eq = valued_same a b i (let q = qi in ground arith) ∙ vi;
            combines = comb;
          }),
          rw same lt,
        )
        | inr (w, ne) ↦ (moved_Waits a b k ne (rw w) (h.waits k w).0, (h.waits k w).1)
      ];
      unready = λ k e ne.
          let (l, r) = children_idle in let u = h.unready k in let p = index_pos in ground arith;
      is_dict = h.is_dict;
    }
