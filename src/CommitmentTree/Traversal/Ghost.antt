-- ===== src/CommitmentTree/Traversal/Ghost.antt =====
-- The invariant of the traversal: each index of the tree is untouched, on the queue, waiting for its
-- children, or in the dictionary with the value that the recursion gives it.
use starkex_data_availabilit.Prelude.{
  ℕ, ◌+◌, ◌*◌, ◌/◌, ◌<◌, ◌≡◌, ◌≢◌, Bool, true, false, Option, some, ◌==◌, ℕ_eq, if◌then◌else◌, not,
  ◌&&◌,
}
use starkex_data_availabilit.Prelude.Dict.{Dict, IsDict}
use starkex_data_availabilit.Prelude.Dict
use starkex_data_availabilit.CommitmentTree.Traversal.{TreeOps}

pub data Status : Type 0 where
  idle queued waiting done : Status

abbrev pub is_idle : Status → Bool
is_idle idle = true
is_idle queued = false
is_idle waiting = false
is_idle done = false

abbrev pub is_waiting : Status → Bool
is_waiting idle = false
is_waiting queued = false
is_waiting waiting = true
is_waiting done = false

abbrev pub is_done : Status → Bool
is_done idle = false
is_done queued = false
is_done waiting = false
is_done done = true

abbrev pub is_queued : Status → Bool
is_queued idle = false
is_queued queued = true
is_queued waiting = false
is_queued done = false

abbrev pub set_at : {A : Type 0} → (ℕ → A) → ℕ → A → ℕ → A
set_at f i v j = if i == j then v else f j

module _ {N C L : Type 0} (ops : TreeOps N C L) where
  -- A waiting node is the combination of the values of its children, not both of which are ready,
  -- unless the loop of `update_necessary` is about to combine them.
  pub record Waits (v : ℕ → Option C) (k : ℕ) : Type 0 where
    pub left : C
    pub right : C
    pub value : C
    pub left_eq : v (2 * k) ≡ some left
    pub right_eq : v (2 * k + 1) ≡ some right
    pub value_eq : v k ≡ some value
    pub combines : ops.combine left right ≡ some value

  -- The facts about the dictionary and the statuses. `open_at` is the index whose children may both
  -- be ready, 0 outside the loop of `update_necessary`.
  pub record Consistent (st : ℕ → Status) (v : ℕ → Option C) (bound open_at : ℕ) (d : Dict ℕ C)
      : Type 0 where
    pub zero_idle : st 0 ≡ idle
    pub root : st 1 ≢ idle
    pub dict : (i : ℕ) → Dict.has d i ≡ is_done (st i)
    pub values : (i : ℕ) (c : C) → Dict.get d i ≡ some c → v i ≡ some c
    pub links : (i : ℕ) → 1 < i → is_idle (st i) ≡ not (is_waiting (st (i / 2)))
    pub waits : (k : ℕ) → st k ≡ waiting → Waits v k × (k < bound)
    pub unready :
        (k : ℕ)
        → st k ≡ waiting
        → k ≢ open_at
        → (is_done (st (2 * k)) && is_done (st (2 * k + 1))) ≡ false
    pub is_dict : IsDict d
