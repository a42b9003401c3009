-- ===== src/Agent/Prepare/Gates/Exclusion.antt =====
-- The calls that hold the gate of a run in internal/agent/runtime.go, over the steps of Gates.
use k8s.Prelude.{
  ℕ, ◌+◌, ◌≤◌, ◌≡◌, refl, Bool, true, false, ◌&&◌, List, [], ◌∷◌, Option, none, some, if◌then◌else◌,
  length, length-append, ◌==◌, ltb, All, arith, Bool-cases, Option-cases, inl, inr,
}
use k8s.Prelude.Int.{pos, ◌+ℤ◌, sub_ℤ}
use k8s.Prelude.Text.{Str, str_eq_iff, str_eq_refl}
use k8s.Prelude.StrMap.{
  StrMap, find_key, store, remove, named, total, find_key-store, find_key-remove, named-store,
  named-remove,
}
use k8s.Agent.Sandboxes.Counts.{one_if}
use k8s.Agent.Prepare.Gates.{
  Gates, change_at, refs_at, has_token, one_more, one_less, with_token, new_gate, join_gate,
  release_ref, set_token, GateCall, waiting, holding, leaving, Callers, GateEvent, enters, gives_up,
  takes, puts, leaves, take_call, entered, given_up, taken, put_back, left, gate_step, gate_steps,
}
use k8s.Agent.Prepare.Gates.Counts.{
  run_of, gate_of, on_gate, holds, sum_calls, holders_of, in_range, IsOwned, length-change_at,
  refs_at-more, refs_at-less, refs_at-token, has_token-more, has_token-less, has_token-set,
  refs_at-append, has_token-append, refs_at-beyond, sum_calls-take, take-All,
}

-- A gate's references are its calls, its token is in its channel or held by one call, and a call's gate is the
-- one that the map has for its run.
record IsGated (g : Gates) (cs : List GateCall) : Type 0 where
  refs : (k : ℕ) → refs_at k g.made ≡ pos (sum_calls (on_gate k) cs)
  tokens :
      (k : ℕ)
      → sum_calls (holds k) cs + one_if (has_token k g.made) ≡ one_if (ltb k (length g.made))
  owned : All (IsOwned g.prepare_ops) cs
  bound : (run : Str) → in_range (find_key run g.prepare_ops) (length g.made) ≡ true
  once : (run : Str) → named run g.prepare_ops ≤ 1

store-IsOwned :
    (run : Str) (k : ℕ) (ops : StrMap ℕ) (cs : List GateCall)
    → find_key run ops ≡ none
    → All (IsOwned ops) cs
    → All (IsOwned (store run k ops)) cs
store-IsOwned run k ops [] h v = tt
store-IsOwned run k ops (c ∷ cs) h v = (
  ground (arith, h, v.0, str_eq_iff run (run_of c), find_key-store run (run_of c) k ops),
  store-IsOwned run k ops cs h v.1,
)

remove-IsOwned :
    (run : Str) (k : ℕ) (ops : StrMap ℕ) (cs : List GateCall)
    → named run ops ≤ 1
    → find_key run ops ≡ some k
    → sum_calls (on_gate k) cs ≡ 0
    → All (IsOwned ops) cs
    → All (IsOwned (remove run ops)) cs
unfolding sum_calls
remove-IsOwned run k ops [] o h z v = tt
remove-IsOwned run k ops (c ∷ cs) o h z v = (
  ground (arith, h, z, v.0, str_eq_iff run (run_of c), find_key-remove run (run_of c) ops o),
  remove-IsOwned run k ops cs o h (omega (arith, z)) v.1,
)

enter-IsGated :
    (run : Str) (g : Gates) (cs : List GateCall)
    → IsGated g cs
    → let w = entered run cs (join_gate run g) in IsGated w.gates w.calls
unfolding join_gate sum_calls ◌+ℤ◌
enter-IsGated run g cs v = elim (Option-cases (find_key run g.prepare_ops)) [
  | inl new ↦
      rw (new, join_gate)
        (record {
          refs = λ j. ground (
            arith,
            refs_at-append j g.made,
            v.refs j,
            refs_at-beyond (length g.made) g.made (omega arith),
          );
          tokens = λ j.
              ground (
                arith,
                has_token-append j g.made,
                v.tokens j,
                length-append g.made (new_gate ∷ []),
              );
          owned = (
            ground (arith, str_eq_refl run, find_key-store run run (length g.made) g.prepare_ops),
            store-IsOwned run (length g.made) g.prepare_ops cs new v.owned,
          );
          bound = λ r. ground (
            arith,
            v.bound r,
            length-append g.made (new_gate ∷ []),
            find_key-store run r (length g.made) g.prepare_ops,
          );
          once = λ r. named-store run r (length g.made) g.prepare_ops (v.once r);
        })
  | inr (k, there) ↦
      rw (there, join_gate)
        (record {
          refs = λ j. ground (arith, there, refs_at-more j k g.made, v.refs j, v.bound run);
          tokens = λ j.
              ground
                (arith, has_token-more j k g.made, v.tokens j, length-change_at k one_more g.made);
          owned = (there, v.owned);
          bound = λ r. ground (arith, v.bound r, length-change_at k one_more g.made);
          once = v.once;
        })
]

module _ (g : Gates) (i : ℕ) (cs : List GateCall) (c : GateCall) (rest : List GateCall)
    (at : take_call i cs ≡ some (c, rest)) (v : IsGated g cs) where
  own : IsOwned g.prepare_ops c × All (IsOwned g.prepare_ops) rest
  own = take-All (IsOwned g.prepare_ops) i cs c rest at v.owned

  there : ltb (gate_of c) (length g.made) ≡ true
  there = ground (arith, v.bound (run_of c), own.0)

  refs_left :
      (j : ℕ) → refs_at j (change_at (gate_of c) one_less g.made) ≡ pos (sum_calls (on_gate j) rest)
  unfolding sub_ℤ
  refs_left j = ground (
    arith,
    refs_at-less j (gate_of c) g.made,
    v.refs j,
    there,
    sum_calls-take (on_gate j) i cs c rest at,
  )

  -- The map loses a run's entry only when no other call has its gate.
  removed-IsGated :
      (b : Bool)
      → (b ≡ true → sum_calls (on_gate (gate_of c)) rest ≡ 0)
      → ((j : ℕ) → holds j c ≡ 0)
      → IsGated
          (record {
            prepare_ops = (if b then remove (run_of c) g.prepare_ops else g.prepare_ops);
            made = change_at (gate_of c) one_less g.made;
          })
          rest
  removed-IsGated true last none_held = record {
    refs = refs_left;
    tokens = λ j. ground (
      arith,
      has_token-less j (gate_of c) g.made,
      v.tokens j,
      none_held j,
      length-change_at (gate_of c) one_less g.made,
      sum_calls-take (holds j) i cs c rest at,
    );
    owned =
        remove-IsOwned (run_of c) (gate_of c) g.prepare_ops rest (v.once (run_of c)) own.0
          (last refl) own.1;
    bound = λ r. ground (
      arith,
      v.bound r,
      length-change_at (gate_of c) one_less g.made,
      find_key-remove (run_of c) r g.prepare_ops (v.once (run_of c)),
    );
    once = λ r. named-remove (run_of c) r g.prepare_ops (v.once r);
  }
  removed-IsGated false last none_held = record {
    refs = refs_left;
    tokens = λ j. ground (
      arith,
      has_token-less j (gate_of c) g.made,
      v.tokens j,
      none_held j,
      length-change_at (gate_of c) one_less g.made,
      sum_calls-take (holds j) i cs c rest at,
    );
    owned = own.1;
    bound = λ r. ground (arith, v.bound r, length-change_at (gate_of c) one_less g.made);
    once = v.once;
  }

  release-IsGated : ((j : ℕ) → holds j c ≡ 0) → IsGated (release_ref (run_of c) (gate_of c) g) rest
  unfolding release_ref
  release-IsGated none_held =
      removed-IsGated _ (λ h. ground (arith, h, refs_left (gate_of c))) none_held

  -- A call with the same run and gate, in the place of another, whose token goes to the channel or comes from it.
  token-IsGated :
      (b : Bool) (d : GateCall)
      → IsOwned g.prepare_ops d
      → ((j : ℕ) → on_gate j d ≡ on_gate j c)
      → ((j : ℕ)
          → holds j d + one_if (gate_of c == j && b)
            ≡ holds j c + one_if (gate_of c == j && has_token (gate_of c) g.made))
      → IsGated (set_token b (gate_of c) g) (d ∷ rest)
  unfolding sum_calls
  token-IsGated b d owned_d same_gate moved = record {
    refs = λ j. ground (
      arith,
      refs_at-token b j (gate_of c) g.made,
      v.refs j,
      same_gate j,
      sum_calls-take (on_gate j) i cs c rest at,
    );
    tokens = λ j. ground (
      arith,
      has_token-set b j (gate_of c) g.made,
      v.tokens j,
      moved j,
      there,
      length-change_at (gate_of c) (with_token b) g.made,
      sum_calls-take (holds j) i cs c rest at,
    );
    owned = (owned_d, own.1);
    bound = λ r. ground (arith, v.bound r, length-change_at (gate_of c) (with_token b) g.made);
    once = v.once;
  }

-- The calls that are counted stay in the invariant.
abbrev IsGuarded : Callers → Type 0
IsGuarded w = IsGated w.gates w.calls

module _ (w : Callers) (i : ℕ) (v : IsGuarded w) where
  give_up-IsGuarded :
      (o : Option (GateCall × List GateCall)) → take_call i w.calls ≡ o → IsGuarded (given_up w o)
  give_up-IsGuarded none at = v
  give_up-IsGuarded (some (waiting run k, rest)) at =
      release-IsGated w.gates i w.calls (waiting run k) rest at v (λ j. refl)
  give_up-IsGuarded (some (holding run k, rest)) at = v
  give_up-IsGuarded (some (leaving run k, rest)) at = v

  leave-IsGuarded :
      (o : Option (GateCall × List GateCall)) → take_call i w.calls ≡ o → IsGuarded (left w o)
  leave-IsGuarded none at = v
  leave-IsGuarded (some (waiting run k, rest)) at = v
  leave-IsGuarded (some (holding run k, rest)) at = v
  leave-IsGuarded (some (leaving run k, rest)) at =
      release-IsGated w.gates i w.calls (leaving run k) rest at v (λ j. refl)

  take-IsGuarded :
      (o : Option (GateCall × List GateCall)) → take_call i w.calls ≡ o → IsGuarded (taken w o)
  take-IsGuarded none at = v
  take-IsGuarded (some (waiting run k, rest)) at = elim (Bool-cases (has_token k w.gates.made)) [
    | inl free ↦ rw free (
        token-IsGated w.gates i w.calls (waiting run k) rest at v false (holding run k)
          (own w.gates i w.calls (waiting run k) rest at v).0 (λ j. refl)
          (λ j. ground (arith, free)))
    | inr busy ↦ rw busy v
  ]
  take-IsGuarded (some (holding run k, rest)) at = v
  take-IsGuarded (some (leaving run k, rest)) at = v

  put-IsGuarded :
      (o : Option (GateCall × List GateCall)) → take_call i w.calls ≡ o → IsGuarded (put_back w o)
  put-IsGuarded none at = v
  put-IsGuarded (some (waiting run k, rest)) at = v
  put-IsGuarded (some (leaving run k, rest)) at = v
  put-IsGuarded (some (holding run k, rest)) at = elim (Bool-cases (has_token k w.gates.made)) [
    | inl full ↦ rw full v
    | inr empty ↦ rw empty (
        token-IsGated w.gates i w.calls (holding run k) rest at v true (leaving run k)
          (own w.gates i w.calls (holding run k) rest at v).0 (λ j. refl)
          (λ j. ground (arith, empty)))
  ]

step-IsGuarded : (e : GateEvent) (w : Callers) → IsGuarded w → IsGuarded (gate_step e w)
unfolding gate_step
step-IsGuarded (enters run) w v = enter-IsGated run w.gates w.calls v
step-IsGuarded (gives_up i) w v = give_up-IsGuarded w i v (take_call i w.calls) refl
step-IsGuarded (takes i) w v = take-IsGuarded w i v (take_call i w.calls) refl
step-IsGuarded (puts i) w v = put-IsGuarded w i v (take_call i w.calls) refl
step-IsGuarded (leaves i) w v = leave-IsGuarded w i v (take_call i w.calls) refl

steps-IsGuarded : (es : List GateEvent) (w : Callers) → IsGuarded w → IsGuarded (gate_steps es w)
unfolding gate_steps
steps-IsGuarded [] w v = v
steps-IsGuarded (e ∷ es) w v = steps-IsGuarded es (gate_step e w) (step-IsGuarded e w v)

-- A new agent: no gate and no call.
abbrev pub no_callers : Callers
no_callers = record { gates = record { prepare_ops = []; made = [] }; calls = [] }

no_callers-IsGuarded : IsGuarded no_callers
unfolding refs_at has_token sum_calls find_key total
no_callers-IsGuarded = record {
  refs = λ k. refl;
  tokens = λ k. ground arith;
  owned = tt;
  bound = λ run. refl;
  once = λ run. omega arith;
}

holders_on_gate :
    (run : Str) (ops : StrMap ℕ) (k : ℕ) (cs : List GateCall)
    → find_key run ops ≡ some k
    → All (IsOwned ops) cs
    → holders_of run cs ≤ sum_calls (holds k) cs
unfolding sum_calls
holders_on_gate run ops k [] h v = omega arith
holders_on_gate run ops k (waiting r j ∷ cs) h v = omega (arith, holders_on_gate run ops k cs h v.1)
holders_on_gate run ops k (leaving r j ∷ cs) h v = omega (arith, holders_on_gate run ops k cs h v.1)
holders_on_gate run ops k (holding r j ∷ cs) h v =
    ground (arith, h, v.0, str_eq_iff r run, holders_on_gate run ops k cs h v.1)

no_holders :
    (run : Str) (ops : StrMap ℕ) (cs : List GateCall)
    → find_key run ops ≡ none
    → All (IsOwned ops) cs
    → holders_of run cs ≡ 0
unfolding sum_calls
no_holders run ops [] h v = refl
no_holders run ops (waiting r j ∷ cs) h v = omega (arith, no_holders run ops cs h v.1)
no_holders run ops (leaving r j ∷ cs) h v = omega (arith, no_holders run ops cs h v.1)
no_holders run ops (holding r j ∷ cs) h v =
    ground (arith, h, v.0, str_eq_iff r run, no_holders run ops cs h v.1)

one_holder_guarded : (run : Str) (w : Callers) → IsGuarded w → holders_of run w.calls ≤ 1
one_holder_guarded run w v = elim (Option-cases (find_key run w.gates.prepare_ops)) [
  | inl e ↦ ground (arith, no_holders run w.gates.prepare_ops w.calls e v.owned)
  | inr (k, e) ↦
      ground (arith, holders_on_gate run w.gates.prepare_ops k w.calls e v.owned, v.tokens k)
]

-- Over any interleaving of the preparations and releases of any runs, with calls that give up at
-- any time, at most one call holds the token of a given run.
pub one_holder :
    (es : List GateEvent) (run : Str) → holders_of run (gate_steps es no_callers).calls ≤ 1
one_holder es run =
    one_holder_guarded run (gate_steps es no_callers)
      (steps-IsGuarded es no_callers no_callers-IsGuarded)
