-- ===== src/Agent/Slots.antt =====
-- The slot limiter and the admission of shards in internal/agent/runtime.go. A release closure keeps its
-- `sync.Once` in a list beside the limiter, and is named by its position; the mutex makes each operation one
-- step, so interleavings are the sequences of steps.
pub mod Invariant
pub mod Admission
use k8s.Prelude.{
  ℕ, zero, suc, Bool, true, false, List, [], ◌∷◌, ◌++◌, Option, none, some, if◌then◌else◌, length,
}
use k8s.Prelude.Int.{ℤ, pos, ◌+ℤ◌, sub_ℤ, ltb_ℤ}
use k8s.Prelude.Text.{lit}
use k8s.Errors.{
  Error, Result, ok, err, external, invalid_lease, invalid_pressure, unsafe_pressure,
  oversubscribed,
}
use k8s.Fleet.Types.{Pressure, critical, ShardLease}
use k8s.Fleet.Validate.{validate_pressure}

pub record SlotLimiter : Type 0 where
  pub total : ℤ
  pub used : ℤ

-- NewSlotLimiter.
unfoldable pub new_slot_limiter : ℤ → Result SlotLimiter
new_slot_limiter total =
    if ltb_ℤ total (pos 1)
    then err (external (lit "total slots must be >= 1"))
    else ok (record { total = total; used = pos 0 })

-- SlotLimiter.Available.
unfoldable pub available : SlotLimiter → ℤ
available s = sub_ℤ s.total s.used

-- SlotLimiter.TryAcquire, without its closure.
unfoldable pub try_acquire : ℤ → SlotLimiter → Option SlotLimiter
try_acquire n s =
    if ltb_ℤ n (pos 1)
    then none
    else if ltb_ℤ (available s) n
    then none
    else some (record s { used = s.used +ℤ n })

-- The release closure of an acquisition: what it gives back, and whether it has been called.
pub record Grant : Type 0 where
  pub amount : ℤ
  pub done : Bool

pub record Slots : Type 0 where
  pub limiter : SlotLimiter
  pub grants : List Grant

abbrev pub granted : ℤ → Slots → Option SlotLimiter → Result ℕ × Slots
granted n s none = (err oversubscribed, s)
granted n s (some limiter) = (
  ok (length s.grants),
  record { limiter = limiter; grants = s.grants ++ (record { amount = n; done = false } ∷ []) },
)

-- Runner.AdmitShard: the position of the release closure, or why the shard is refused.
unfoldable pub admit_shard : ShardLease → Pressure → Slots → Result ℕ × Slots
admit_shard lease pressure s =
    if ltb_ℤ lease.child_count (pos 1)
    then (err invalid_lease, s)
    else elim (validate_pressure pressure (lit "pressure")) [
      | err e ↦ (err (invalid_pressure e), s)
      | ok _ ↦
          if critical pressure
          then (err unsafe_pressure, s)
          else granted lease.child_count s (try_acquire lease.child_count s.limiter)
    ]

-- What a call of the closure at a position gives back: nothing after the first call.
unfoldable pub fire : ℕ → List Grant → Option ℤ × List Grant
fire k [] = (none, [])
fire zero (g ∷ gs) =
    if g.done then (none, g ∷ gs) else (some g.amount, record g { done = true } ∷ gs)
fire (suc k) (g ∷ gs) = ((fire k gs).0, g ∷ (fire k gs).1)

abbrev give_back : SlotLimiter → Option ℤ → SlotLimiter
give_back s none = s
give_back s (some n) = record s { used = sub_ℤ s.used n }

unfoldable pub release : ℕ → Slots → Slots
release k s = record {
  limiter = give_back s.limiter (fire k s.grants).0;
  grants = (fire k s.grants).1;
}

pub data Event : Type 0 where
  admit : ShardLease → Pressure → Event
  call_release : ℕ → Event

unfoldable pub step : Event → Slots → Slots
step (admit lease pressure) s = (admit_shard lease pressure s).1
step (call_release k) s = release k s

unfoldable pub steps : List Event → Slots → Slots
steps [] s = s
steps (e ∷ es) s = steps es (step e s)
