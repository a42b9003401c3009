-- ===== src/Agent/Shard/Slice.antt =====
-- The slice of results of RunShard in internal/agent/runtime.go.
use k8s.Prelude.{
  ℕ, ◌+◌, ◌-◌, ◌≤◌, ◌^◌, zero, suc, ◌≡◌, refl, ap, ◌∙◌, ◌||◌, List, [], ◌∷◌, ◌++◌, Option, length,
  length-append, arith, Bool-cases, Option-cases, ◌⊎◌, inl, inr,
}
use k8s.Prelude.Int.{ℤ, pos, ltb_ℤ, pos_part, ◌+ℤ◌, sub_ℤ, add_int, wrap_int}
use k8s.Prelude.Text.{Str}
use k8s.Errors.{Error, Checked, ok, err, Result-cases, invalid_lease, join_errors, join_errors_none}
use k8s.Fleet.Types.{ShardLease, AttemptResult, lease_range, end_of}
use k8s.Fleet.Validate.{validate_lease}
use k8s.Agent.Slots.{admit_shard}
use k8s.Agent.Client.{Config, Node}
use k8s.Agent.Shard.{
  RunShardRequest, child_request, child_ids, ids_from, Batch, noted, set_at, zeros, admit_lease,
  run_child, run_jobs, run_shard_lease, jobs_done, demand_lease, zero_result,
}

-- The loop runs over as many ids as the lease has children, or over fewer if its end overflows.
rounds :
    (lease : ShardLease) (start count : ℕ)
    → lease.child_start ≡ pos start
    → lease.child_count ≡ pos count
    → (ids extra : ℕ) × (child_ids lease ≡ ids_from (pos start) ids)
      × (ids + extra ≡ count)
      × ((extra ≡ 0) ⊎ (2 ^ 63 ≤ start + count))
unfolding child_ids lease_range end_of sub_ℤ add_int ◌+ℤ◌ wrap_int
rounds lease start count s c =
    let ids = pos_part (sub_ℤ (add_int (pos start) (pos count)) (pos start)) in
    (ids, count - ids, rw (s, c) refl, ground arith, ground arith)

filled : (d l m extra count : ℕ) → d + l ≡ m → m + extra ≡ count → d + (l + extra) ≡ count
filled d l m extra count h k = omega (arith, h, k)

none_left : (l extra : ℕ) → l ≡ 0 → extra ≡ 0 → l + extra ≡ 0
none_left l extra h k = omega (arith, h, k)

append_assoc : (xs ys zs : List AttemptResult) → (xs ++ ys) ++ zs ≡ xs ++ (ys ++ zs)
append_assoc [] ys zs = refl
append_assoc (x ∷ xs) ys zs = ap (λ l. x ∷ l) (append_assoc xs ys zs)

first_id : (start : ℕ) → pos start ≡ pos (start + 0)
first_id start = ground arith

suc_id : (n : ℕ) → pos n +ℤ pos 1 ≡ pos (suc n)
unfolding ◌+ℤ◌
suc_id n = ground arith

index_of : (start k : ℕ) → pos_part (sub_ℤ (pos (start + k)) (pos start)) ≡ k
unfolding sub_ℤ
index_of start k = ground arith

snoc_some : (es : List Error) (e : Error) → ¬ (es ++ (e ∷ []) ≡ [])
snoc_some [] e h = absurd cc
snoc_some (x ∷ es) e h = absurd cc

set_at-append :
    (pre : List AttemptResult) (x y : AttemptResult) (ys : List AttemptResult)
    → set_at (length pre) x (pre ++ y ∷ ys) ≡ (pre ++ (x ∷ [])) ++ ys
set_at-append [] x y ys = refl
set_at-append (p ∷ pre) x y ys = ap (λ l. p ∷ l) (set_at-append pre x y ys)

noted-slice : (i : ℕ) (r : AttemptResult × Checked) (b : Batch) → (noted i r b).0 ≡ set_at i r.0 b.0
noted-slice i (r, ok _) (rs, es) = refl
noted-slice i (r, err e) (rs, es) = refl

one_more : (d l m : ℕ) → d + l ≡ m → suc d + l ≡ suc m
one_more d l m h = omega (arith, h)

zeros-suc : (m extra : ℕ) → zeros (suc m + extra) ≡ zero_result ∷ zeros (m + extra)
zeros-suc m extra = let eq : suc m + extra ≡ suc (m + extra) = omega arith in ap zeros eq

next_id :
    (start : ℕ) (id : ℤ) (pre : List AttemptResult) (x : AttemptResult)
    → id ≡ pos (start + length pre)
    → id +ℤ pos 1 ≡ pos (start + length (pre ++ (x ∷ [])))
next_id start id pre x at =
    rw (at, length-append pre (x ∷ [])) (suc_id (start + length pre) ∙ ground arith)

written_at :
    (start m extra : ℕ) (id child_start : ℤ) (pre : List AttemptResult)
    (r : AttemptResult × Checked) (b : Batch)
    → child_start ≡ pos start
    → id ≡ pos (start + length pre)
    → b.0 ≡ pre ++ zeros (suc m + extra)
    → (noted (pos_part (sub_ℤ id child_start)) r b).0 ≡ (pre ++ (r.0 ∷ [])) ++ zeros (m + extra)
written_at start m extra id child_start pre r b s at h =
    noted-slice (pos_part (sub_ℤ id child_start)) r b
    ∙ rw (s, at, index_of start (length pre), h, zeros-suc m extra)
        (set_at-append pre r.0 zero_result (zeros (m + extra)))

join_errors_last :
    (es : List Error) (e : Error) → (g : Error) × (join_errors (es ++ (e ∷ [])) ≡ err g)
join_errors_last es e = elim (Result-cases (join_errors (es ++ (e ∷ [])))) [
  | inl (g, h) ↦ (g, h)
  | inr (_, h) ↦ absurd (snoc_some es e (join_errors_none (es ++ (e ∷ [])) h))
]

module _ {W : Type 0} (config : Config W) (message : Error → Str) where
  module _ (ctx_err : W → Option Error) where
    -- What runChild returns for the children in their order, one after the other.
    abbrev pub child_results : RunShardRequest → List ℤ → Node W → List AttemptResult
    child_results req [] n = []
    child_results req (c ∷ cs) n =
        let ended = run_child config message (child_request req c) n in
        ended.0.0 ∷ child_results req cs ended.1

    -- The slice after m more rounds, of which the first writes behind `pre`.
    jobs-Filled :
        (req : RunShardRequest) (start m extra : ℕ) (id : ℤ) (pre : List AttemptResult) (b : Batch)
        (n : Node W)
        → req.lease.child_start ≡ pos start
        → id ≡ pos (start + length pre)
        → b.0 ≡ pre ++ zeros (m + extra)
        → (d l : ℕ) × (d + l ≡ m)
          × ((run_jobs config message ctx_err req (ids_from id m) b n).0.0
              ≡ pre ++ (child_results req (ids_from id d) n ++ zeros (l + extra)))
          × ((l ≡ 0)
              ⊎ ((e : Error) × (join_errors
                      (run_jobs config message ctx_err req (ids_from id m) b n).0.1
                    ≡ err e)))
    unfolding run_jobs ids_from
    jobs-Filled req start zero extra id pre b n s at h = (0, 0, refl, h, inl refl)
    jobs-Filled req start (suc m) extra id pre b n s at h = elim (Option-cases (ctx_err n.world)) [
      | inr (e, stopped) ↦
          rw (stopped, run_jobs) (0, suc m, omega arith, h, inr (join_errors_last b.1 e))
      | inl goes ↦
          let ended = run_child config message (child_request req id) n in
          let i = pos_part (sub_ℤ id req.lease.child_start) in
          let later =
            jobs-Filled req start m extra (id +ℤ pos 1) (pre ++ (ended.0.0 ∷ []))
              (noted i ended.0 b) ended.1 s (next_id start id pre ended.0.0 at)
              (written_at start m extra id req.lease.child_start pre ended.0 b s at h) in
          rw (goes, run_jobs)
            (
              suc later.0,
              later.1,
              one_more later.0 later.1 m later.2,
              later.3 ∙ append_assoc pre (ended.0.0 ∷ []) _,
              later.4,
            )
    ]

    -- The results of a shard whose lease has this start and this number of children, run from n.
    abbrev pub FillsSlice : RunShardRequest → ℕ → ℕ → Node W → List AttemptResult × Checked → Type 0
    FillsSlice req start count n r =
        (done left : ℕ) × (done + left ≡ count)
        × (r.0 ≡ child_results req (ids_from (pos start) done) n ++ zeros left)
        × ((left ≡ 0) ⊎ ((e : Error) × (r.1 ≡ err e)) ⊎ (2 ^ 63 ≤ start + count))

    slice-FillsSlice :
        (req : RunShardRequest) (start count ids extra slot : ℕ) (cs : List ℤ)
        (slice : List AttemptResult) (n : Node W)
        → req.lease.child_start ≡ pos start
        → cs ≡ ids_from (pos start) ids
        → ids + extra ≡ count
        → (extra ≡ 0) ⊎ (2 ^ 63 ≤ start + count)
        → slice ≡ zeros count
        → FillsSlice req start count n
            (jobs_done config message ctx_err slot
              (run_jobs config message ctx_err req cs (slice, []) n)).0
    slice-FillsSlice req start count ids extra slot cs slice n s these sum whole made =
        let r =
          jobs-Filled req start ids extra (pos start) [] (slice, []) n s (first_id start)
            (rw (made, sum) refl) in
        rw these (
          r.0,
          r.1 + extra,
          filled r.0 r.1 ids extra count r.2 sum,
          r.3,
          elim r.4 [
            | inr failed ↦ inr (inl failed)
            | inl done ↦ elim whole [
              | inl none ↦ inl (none_left r.1 extra done none)
              | inr overflow ↦ inr (inr overflow)
            ]
          ],
        )

    child_jobs-FillsSlice :
        (req : RunShardRequest) (start count slot : ℕ) (n : Node W)
        → req.lease.child_start ≡ pos start
        → req.lease.child_count ≡ pos count
        → FillsSlice req start count n
            (jobs_done config message ctx_err slot (
              run_jobs config message ctx_err req
                (child_ids req.lease)
                (zeros (pos_part req.lease.child_count), [])
                n)).0
    child_jobs-FillsSlice req start count slot n s c =
        let (ids, extra, these, sum, whole) = rounds req.lease start count s c in
        slice-FillsSlice req start count ids extra slot (child_ids req.lease)
          (zeros (pos_part req.lease.child_count)) n s these sum whole
          (ap (λ k. zeros (pos_part k)) c)

    -- A call of RunShard returns as many results as its lease has children: those of runChild for
    -- the children from its start on, in their order, and zero results behind them, of which there
    -- are none unless it returns an error or the end of the lease overflows; or it returns no
    -- result and an error. The numbers of the lease are not negative.
    pub run_shard_lease-results :
        (req : RunShardRequest) (n : Node W) (start count : ℕ)
        → req.lease.child_start ≡ pos start
        → req.lease.child_count ≡ pos count
        → FillsSlice req start count
            (admit_lease config message (demand_lease req) req.pressure n).1
            (run_shard_lease config message ctx_err req n).0
          ⊎ ((e : Error) × ((run_shard_lease config message ctx_err req n).0 ≡ ([], err e)))
    unfolding run_shard_lease
    run_shard_lease-results req n start count s c =
        let lease = demand_lease req in
        elim (Result-cases (validate_lease req.lease req.run)) [
          | inl (e, bad) ↦ inr (e, ground (arith, bad))
          | inr (_, good) ↦
              elim (Bool-cases
                (ltb_ℤ req.attempt (pos 1) || ltb_ℤ req.lease.attempt_budget req.attempt)) [
                  | inl outside ↦ inr (invalid_lease, ground (arith, good, outside))
                  | inr inside ↦
                      elim (Result-cases (admit_shard lease req.pressure n.agent.slots).0) [
                        | inl (e, refused) ↦ inr (e, ground (arith, good, inside, refused))
                        | inr (slot, admitted) ↦
                            rw (good, inside, admitted, run_shard_lease)
                              (inl (
                                child_jobs-FillsSlice req start count slot
                                  (admit_lease config message lease req.pressure n).1 s c))
                      ]
                ]
        ]
