-- ===== src/Agent/Prepare/Gates.antt =====
-- The gate of each run's preparations in internal/agent/runtime.go: lockPrepareOperation and
-- releasePrepareOperationRef. A gate is a position in the list of those made, which stands for its pointer. Each
-- critical section and each operation of a token's channel is one step; a call in flight is what its goroutine
-- keeps between two of them.
pub mod Counts
pub mod Exclusion
use k8s.Prelude.{
  ℕ, zero, suc, Bool, true, false, ◌&&◌, List, [], ◌∷◌, ◌++◌, Option, none, some, if◌then◌else◌,
  length, ◌==◌,
}
use k8s.Prelude.Int.{ℤ, pos, ◌+ℤ◌, sub_ℤ, eq_ℤ}
use k8s.Prelude.Text.{Str}
use k8s.Prelude.StrMap.{StrMap, find_key, store, remove}

-- `token` says whether the channel holds its token.
pub record PrepareOperation : Type 0 where
  pub token : Bool
  pub refs : ℤ

pub record Gates : Type 0 where
  pub prepare_ops : StrMap ℕ
  pub made : List PrepareOperation

unfoldable pub change_at :
    ℕ → (PrepareOperation → PrepareOperation) → List PrepareOperation → List PrepareOperation
change_at k f [] = []
change_at zero f (g ∷ gs) = f g ∷ gs
change_at (suc k) f (g ∷ gs) = g ∷ change_at k f gs

unfoldable pub refs_at : ℕ → List PrepareOperation → ℤ
refs_at k [] = pos 0
refs_at zero (g ∷ gs) = g.refs
refs_at (suc k) (g ∷ gs) = refs_at k gs

unfoldable pub has_token : ℕ → List PrepareOperation → Bool
has_token k [] = false
has_token zero (g ∷ gs) = g.token
has_token (suc k) (g ∷ gs) = has_token k gs

abbrev pub one_more : PrepareOperation → PrepareOperation
one_more g = record { token = g.token; refs = g.refs +ℤ pos 1 }

abbrev pub one_less : PrepareOperation → PrepareOperation
one_less g = record { token = g.token; refs = sub_ℤ g.refs (pos 1) }

abbrev pub with_token : Bool → PrepareOperation → PrepareOperation
with_token b g = record { token = b; refs = g.refs }

abbrev pub new_gate : PrepareOperation
new_gate = record { token = true; refs = pos 0 +ℤ pos 1 }

abbrev pub joined_at : Str → Gates → Option ℕ → ℕ × Gates
joined_at run g none = (
  length g.made,
  record {
    prepare_ops = store run (length g.made) g.prepare_ops;
    made = g.made ++ (new_gate ∷ []);
  },
)
joined_at run g (some k) =
    (k, record { prepare_ops = g.prepare_ops; made = change_at k one_more g.made })

-- The critical section of lockPrepareOperation: the gate of the run.
unfoldable pub join_gate : Str → Gates → ℕ × Gates
join_gate run g = joined_at run g (find_key run g.prepare_ops)

abbrev pub is_gate : ℕ → Option ℕ → Bool
is_gate k none = false
is_gate k (some j) = j == k

-- Runner.releasePrepareOperationRef.
unfoldable pub release_ref : Str → ℕ → Gates → Gates
release_ref run k g = record {
  prepare_ops =
      (if eq_ℤ (refs_at k (change_at k one_less g.made)) (pos 0)
          && is_gate k (find_key run g.prepare_ops)
        then remove run g.prepare_ops
        else g.prepare_ops);
  made = change_at k one_less g.made;
}

abbrev pub set_token : Bool → ℕ → Gates → Gates
set_token b k g = record { prepare_ops = g.prepare_ops; made = change_at k (with_token b) g.made }

-- A call before the token, with it, and behind it with its reference still counted.
pub data GateCall : Type 0 where
  waiting : Str → ℕ → GateCall
  holding : Str → ℕ → GateCall
  leaving : Str → ℕ → GateCall

pub record Callers : Type 0 where
  pub gates : Gates
  pub calls : List GateCall

-- A context may end before the token is there; a step that finds its channel empty, or full, does not happen.
pub data GateEvent : Type 0 where
  enters : Str → GateEvent
  gives_up : ℕ → GateEvent
  takes : ℕ → GateEvent
  puts : ℕ → GateEvent
  leaves : ℕ → GateEvent

unfoldable pub take_call : ℕ → List GateCall → Option (GateCall × List GateCall)
take_call i [] = none
take_call zero (c ∷ cs) = some (c, cs)
take_call (suc i) (c ∷ cs) = elim (take_call i cs) [
  | none ↦ none
  | some (d, rest) ↦ some (d, c ∷ rest)
]

abbrev pub entered : Str → List GateCall → ℕ × Gates → Callers
entered run cs (k, g) = record { gates = g; calls = waiting run k ∷ cs }

abbrev pub given_up : Callers → Option (GateCall × List GateCall) → Callers
given_up w (some (waiting run k, rest)) = record { gates = release_ref run k w.gates; calls = rest }
given_up w _ = w

abbrev pub taken : Callers → Option (GateCall × List GateCall) → Callers
taken w (some (waiting run k, rest)) =
    if has_token k w.gates.made
    then record { gates = set_token false k w.gates; calls = holding run k ∷ rest }
    else w
taken w _ = w

abbrev pub put_back : Callers → Option (GateCall × List GateCall) → Callers
put_back w (some (holding run k, rest)) =
    if has_token k w.gates.made
    then w
    else record { gates = set_token true k w.gates; calls = leaving run k ∷ rest }
put_back w _ = w

abbrev pub left : Callers → Option (GateCall × List GateCall) → Callers
left w (some (leaving run k, rest)) = record { gates = release_ref run k w.gates; calls = rest }
left w _ = w

unfoldable pub gate_step : GateEvent → Callers → Callers
gate_step (enters run) w = entered run w.calls (join_gate run w.gates)
gate_step (gives_up i) w = given_up w (take_call i w.calls)
gate_step (takes i) w = taken w (take_call i w.calls)
gate_step (puts i) w = put_back w (take_call i w.calls)
gate_step (leaves i) w = left w (take_call i w.calls)

unfoldable pub gate_steps : List GateEvent → Callers → Callers
gate_steps [] w = w
gate_steps (e ∷ es) w = gate_steps es (gate_step e w)
