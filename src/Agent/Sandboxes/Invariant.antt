-- ===== src/Agent/Sandboxes/Invariant.antt =====
-- The ownership of slots and sandboxes over any interleaving of the interactive work of
-- internal/agent/interactive.go and the shards of internal/agent/runtime.go.
use k8s.Prelude.{
  ℕ, ◌+◌, ◌≤◌, ◌≡◌, false, List, [], ◌∷◌, ◌++◌, Option, none, some, ◌==◌, arith, length, Bool-cases,
  inl, inr,
}
use k8s.Prelude.Int.{ℤ, pos, ltb_ℤ}
use k8s.Prelude.Text.{Str, lit, str_eq, str_eq_iff, str_eq_refl}
use k8s.Prelude.StrMap.{find_key, store, remove, total, total-store, total-remove}
use k8s.Errors.{Result-cases}
use k8s.Fleet.Types.{Pressure, critical, ShardLease}
use k8s.Fleet.Validate.{validate_pressure}
use k8s.Agent.Slots.{SlotLimiter, Grant, fire, try_acquire, granted, admit_shard}
use k8s.Agent.Sandboxes.{
  SandboxMap, Op, admitted, creating, removing, Work, admit_one, take_op, begin_op,
}
use k8s.Agent.Sandboxes.Counts.{
  one_if, open_at, entry_holds, entry_busy, entry_named, op_holds, op_owns, sum_ops,
  sum_ops-take_op, open_at_le_one, open_at-append, open_at-fire, find_key_busy, find_key-none,
}

-- Each release closure not yet called is held once, by a sandbox or by an operation; each busy name is
-- owned by one operation; and a name stands once.
pub record Balanced (m : SandboxMap) (os : List Op) (gs : List Grant) : Type 0 where
  pub slots : (k : ℕ) → total (entry_holds k) m + sum_ops (op_holds k) os ≡ open_at k gs
  pub busy : (name : Str) → sum_ops (op_owns name) os ≡ total (entry_busy name) m
  pub named : (name : Str) → total (entry_named name) m ≤ 1

abbrev pub IsWork : Work → Type 0
IsWork w = Balanced w.agent.sandboxes w.ops w.agent.slots.grants

-- An operation that starts with a new closure and owns no name.
begin-Balanced :
    (m : SandboxMap) (os : List Op) (gs : List Grant) (n : ℤ) (o : Op)
    → Balanced m os gs
    → ((k : ℕ) → op_holds k o ≡ one_if (length gs == k))
    → ((name : Str) → op_owns name o ≡ 0)
    → Balanced m (o ∷ os) (gs ++ (record { amount = n; done = false } ∷ []))
unfolding sum_ops
begin-Balanced m os gs n o b holds owns = record {
  slots = λ k. omega (arith, b.slots k, holds k, open_at-append k gs n);
  busy = λ name. omega (arith, b.busy name, owns name);
  named = b.named;
}

-- An operation that ends, with nothing of the map, and calls its closure.
pub end-Balanced :
    (m : SandboxMap) (os rest : List Op) (gs : List Grant) (i j : ℕ) (o : Op)
    → Balanced m os gs
    → take_op i os ≡ some (o, rest)
    → ((k : ℕ) → op_holds k o ≡ one_if (j == k))
    → ((name : Str) → op_owns name o ≡ 0)
    → Balanced m rest (fire j gs).1
end-Balanced m os rest gs i j o b at holds owns = record {
  slots = λ k. ground (
    arith,
    b.slots k,
    holds k,
    open_at-fire k j gs,
    open_at_le_one k gs,
    sum_ops-take_op (op_holds k) i os o rest at,
  );
  busy =
      λ name. omega (arith, b.busy name, owns name, sum_ops-take_op (op_owns name) i os o rest at);
  named = b.named;
}

-- An operation that owns a busy name reads it so.
owned-busy :
    (m : SandboxMap) (os rest : List Op) (gs : List Grant) (i : ℕ) (o : Op) (n : Str)
    → Balanced m os gs
    → take_op i os ≡ some (o, rest)
    → op_owns n o ≡ 1
    → find_key n m ≡ some none
owned-busy m os rest gs i o n b at owns =
    find_key_busy n m (b.named n)
      (omega (arith, b.busy n, owns, sum_ops-take_op (op_owns n) i os o rest at))

module _ (m : SandboxMap) (os rest : List Op) (gs : List Grant) (i j : ℕ) (n : Str) (o : Op)
    (b : Balanced m os gs) (at : take_op i os ≡ some (o, rest))
    (holds : (k : ℕ) → op_holds k o ≡ one_if (j == k))
    (owns : (name : Str) → op_owns name o ≡ one_if (str_eq n name)) where
  read : find_key n m ≡ some none
  read = owned-busy m os rest gs i o n b at (ground (arith, owns n, str_eq_refl n))

  -- It gives its slot to the sandbox.
  pub activate-Balanced : Balanced (store n (some j) m) rest gs
  activate-Balanced = record {
    slots = λ k. ground (
      arith,
      read,
      b.slots k,
      holds k,
      total-store (entry_holds k) n (some j) m,
      sum_ops-take_op (op_holds k) i os o rest at,
    );
    busy = λ name. ground (
      arith,
      read,
      b.busy name,
      owns name,
      total-store (entry_busy name) n (some j) m,
      sum_ops-take_op (op_owns name) i os o rest at,
    );
    named = λ name. ground (arith, read, b.named name, total-store (entry_named name) n (some j) m);
  }

  -- Its name leaves the map, and it calls its closure.
  pub drop-Balanced : Balanced (remove n m) rest (fire j gs).1
  drop-Balanced = record {
    slots = λ k. ground (
      arith,
      read,
      b.slots k,
      holds k,
      total-remove (entry_holds k) n m,
      open_at-fire k j gs,
      open_at_le_one k gs,
      sum_ops-take_op (op_holds k) i os o rest at,
    );
    busy = λ name. ground (
      arith,
      read,
      b.busy name,
      owns name,
      total-remove (entry_busy name) n m,
      sum_ops-take_op (op_owns name) i os o rest at,
    );
    named = λ name. ground (arith, read, b.named name, total-remove (entry_named name) n m);
  }

-- A name that is reserved.
pub reserve-Balanced :
    (m : SandboxMap) (os rest : List Op) (gs : List Grant) (i j : ℕ) (n : Str)
    → Balanced m os gs
    → take_op i os ≡ some (admitted n j, rest)
    → find_key n m ≡ none
    → Balanced (store n none m) (creating n j ∷ rest) gs
unfolding sum_ops
reserve-Balanced m os rest gs i j n b at free = record {
  slots = λ k. ground (
    arith,
    free,
    b.slots k,
    total-store (entry_holds k) n none m,
    sum_ops-take_op (op_holds k) i os (admitted n j) rest at,
  );
  busy = λ name. ground (
    arith,
    free,
    b.busy name,
    total-store (entry_busy name) n none m,
    sum_ops-take_op (op_owns name) i os (admitted n j) rest at,
  );
  named = λ name. ground (
    arith,
    free,
    str_eq_iff n name,
    b.named name,
    find_key-none n m free,
    total-store (entry_named name) n none m,
  );
}

-- A tracked sandbox whose removal starts.
pub mark-Balanced :
    (m : SandboxMap) (os : List Op) (gs : List Grant) (j : ℕ) (n : Str)
    → Balanced m os gs
    → find_key n m ≡ some (some j)
    → Balanced (store n none m) (removing n (some j) ∷ os) gs
unfolding sum_ops
mark-Balanced m os gs j n b tracked = record {
  slots = λ k. ground (arith, tracked, b.slots k, total-store (entry_holds k) n none m);
  busy = λ name. ground (arith, tracked, b.busy name, total-store (entry_busy name) n none m);
  named = λ name. ground (arith, tracked, b.named name, total-store (entry_named name) n none m);
}

begun-IsWork :
    (f : ℕ → Op) (w : Work) (n : ℤ) (limiter : Option SlotLimiter)
    → ((j k : ℕ) → op_holds k (f j) ≡ one_if (j == k))
    → ((j : ℕ) (name : Str) → op_owns name (f j) ≡ 0)
    → IsWork w
    → IsWork (begin_op f w (granted n w.agent.slots limiter))
begun-IsWork f w n none holds owns b = b
begun-IsWork f w n (some limiter) holds owns b =
    let k = length w.agent.slots.grants in
    begin-Balanced w.agent.sandboxes w.ops w.agent.slots.grants n (f k) b (holds k) (owns k)

module _ (f : ℕ → Op) (w : Work) (p : Pressure)
    (holds : (j k : ℕ) → op_holds k (f j) ≡ one_if (j == k))
    (owns : (j : ℕ) (name : Str) → op_owns name (f j) ≡ 0) (b : IsWork w) where
  pub admit_one-IsWork : IsWork (begin_op f w (admit_one p w.agent.slots))
  unfolding admit_one
  admit_one-IsWork = elim (Result-cases (validate_pressure p (lit "pressure"))) [
    | inl (e, bad) ↦ rw (bad, admit_one) b
    | inr (_, good) ↦ elim (Bool-cases (critical p)) [
      | inl unsafe ↦ rw (good, unsafe, admit_one) b
      | inr safe ↦
          rw (good, safe, admit_one)
            (begun-IsWork f w (pos 1) (try_acquire (pos 1) w.agent.slots.limiter) holds owns b)
    ]
  ]

  pub admit_shard-IsWork :
      (lease : ShardLease) → IsWork (begin_op f w (admit_shard lease p w.agent.slots))
  unfolding admit_shard
  admit_shard-IsWork lease = elim (Bool-cases (ltb_ℤ lease.child_count (pos 1))) [
    | inl few ↦ rw (few, admit_shard) b
    | inr enough ↦ elim (Result-cases (validate_pressure p (lit "pressure"))) [
      | inl (e, bad) ↦ rw (enough, bad, admit_shard) b
      | inr (_, good) ↦ elim (Bool-cases (critical p)) [
        | inl unsafe ↦ rw (enough, good, unsafe, admit_shard) b
        | inr safe ↦
            rw (enough, good, safe, admit_shard)
              (begun-IsWork f w lease.child_count
                (try_acquire lease.child_count w.agent.slots.limiter) holds owns b)
      ]
    ]
  ]
