-- ===== src/Fleet/Plan/Refusals.antt =====
-- When a plan is refused, and why (internal/fleet/coordinator.go), said of the listed agents in any order.
use k8s.Prelude.{
  ℕ, ◌+◌, ◌≡◌, refl, ap, ◌∙◌, Bool, false, ◌&&◌, ◌||◌, not, List, [], ◌∷◌, Option, none, some,
  arith, length, All, any, if◌then◌else◌, Bool-cases, inl, inr,
}
use k8s.Prelude.Int.{ℤ, pos, ltb_ℤ, leb_ℤ, eq_ℤ, min_ℤ, ◌≤ℤ◌, ◌+ℤ◌}
use k8s.Prelude.Text.{is_some}
use k8s.Errors.{Error, ok, no_compatible_agents, insufficient_capacity}
use k8s.Fleet.Types.{AgentStatus, BundleRun, PlanSummary}
use k8s.Fleet.Validate.{validate_bundle_run, validate_agent_status}
use k8s.Fleet.Validate.Spec.{validate_bundle_run_iff}
use k8s.Fleet.Plan.{
  Candidate, Scan, id_lt, insert_agent, sort_agents, is_compatible, offered, scan_agent,
  scan_agents, start_scan, first_candidate_with_capacity, best_from, best_candidate_capacity,
  required_in_flight_slots, candidate_agents, choose, plan_of, finish_scan,
  build_single_agent_sequential_plan,
}
use k8s.Fleet.Plan.Candidates.{eligible, scan_agents_lem}

module _ (run : BundleRun) where
  abbrev pub required : ℤ
  required = min_ℤ run.children.count run.execution.max_in_flight_per_agent

  abbrev pub has_room : AgentStatus → Bool
  has_room a = is_compatible run a && leb_ℤ required (offered run a)

  -- The greater of `best` and what a compatible agent offers.
  pub raise : ℤ → AgentStatus → ℤ
  raise best a = if is_compatible run a && ltb_ℤ best (offered run a) then offered run a else best

  -- The most slots that a compatible agent offers, and 0 at least.
  abbrev pub best_offer : List AgentStatus → ℤ
  best_offer [] = pos 0
  best_offer (a ∷ l) = raise (best_offer l) a

  -- No error if an agent has room; else what is short.
  abbrev pub expected_error : List AgentStatus → Option Error
  expected_error agents =
      if any has_room agents
      then none
      else if any (is_compatible run) agents
      then some (insufficient_capacity required (best_offer agents))
      else some no_compatible_agents

  any-insert_agent :
      (p : AgentStatus → Bool) (a : AgentStatus) (l : List AgentStatus)
      → any p (insert_agent a l) ≡ any p (a ∷ l)
  unfolding any insert_agent
  any-insert_agent p a [] = refl
  any-insert_agent p a (b ∷ l) = ground (arith, any-insert_agent p a l)

  any-cons :
      (p : AgentStatus → Bool) (a : AgentStatus) (l m : List AgentStatus)
      → any p l ≡ any p m
      → any p (a ∷ l) ≡ any p (a ∷ m)
  unfolding any
  any-cons p a l m e = ap (λ b. p a || b) e

  any-sort_agents :
      (p : AgentStatus → Bool) (l : List AgentStatus) → any p (sort_agents l) ≡ any p l
  unfolding sort_agents
  any-sort_agents p [] = refl
  any-sort_agents p (a ∷ l) =
      any-insert_agent p a (sort_agents l) ∙ any-cons p a (sort_agents l) l (any-sort_agents p l)

  raise_comm : (best : ℤ) (a b : AgentStatus) → raise (raise best a) b ≡ raise (raise best b) a
  unfolding raise
  raise_comm best a b = ground arith

  best_offer-insert_agent :
      (a : AgentStatus) (l : List AgentStatus) → best_offer (insert_agent a l) ≡ best_offer (a ∷ l)
  unfolding insert_agent
  best_offer-insert_agent a [] = refl
  best_offer-insert_agent a (b ∷ l) = elim (Bool-cases (id_lt b a)) [
    | inl e ↦
        rw e (ap (λ t. raise t b) (best_offer-insert_agent a l) ∙ raise_comm (best_offer l) a b)
    | inr e ↦ rw e refl
  ]

  best_offer-sort_agents : (l : List AgentStatus) → best_offer (sort_agents l) ≡ best_offer l
  unfolding sort_agents
  best_offer-sort_agents [] = refl
  best_offer-sort_agents (a ∷ l) =
      best_offer-insert_agent a (sort_agents l) ∙ ap (λ b. raise b a) (best_offer-sort_agents l)

  -- The loop over the candidates, as a fold of `raise` over the agents.
  raise_all : ℤ → List AgentStatus → ℤ
  raise_all best [] = best
  raise_all best (a ∷ l) = raise_all (raise best a) l

  raise-raise_all :
      (best : ℤ) (a : AgentStatus) (l : List AgentStatus)
      → raise_all (raise best a) l ≡ raise (raise_all best l) a
  unfolding raise_all
  raise-raise_all best a [] = refl
  raise-raise_all best a (b ∷ l) =
      ap (λ t. raise_all t l) (raise_comm best a b) ∙ raise-raise_all (raise best b) a l

  raise_all-best_offer : (l : List AgentStatus) → raise_all (pos 0) l ≡ best_offer l
  unfolding raise_all
  raise_all-best_offer [] = refl
  raise_all-best_offer (a ∷ l) =
      raise-raise_all (pos 0) a l ∙ ap (λ t. raise t a) (raise_all-best_offer l)

  raise-nonneg : (best : ℤ) (a : AgentStatus) → pos 0 ≤ℤ best → pos 0 ≤ℤ raise best a
  unfolding raise
  raise-nonneg best a h = ground arith

  best_from-cons :
      (best : ℤ) (a : AgentStatus) (l : List AgentStatus)
      → pos 0 ≤ℤ best
      → best_from best (eligible run (a ∷ l)) ≡ best_from (raise best a) (eligible run l)
  unfolding best_from eligible raise
  best_from-cons best a l h = ground arith

  best_from-eligible :
      (best : ℤ) (l : List AgentStatus)
      → pos 0 ≤ℤ best
      → best_from best (eligible run l) ≡ raise_all best l
  unfolding best_from eligible raise_all
  best_from-eligible best [] h = refl
  best_from-eligible best (a ∷ l) h =
      best_from-cons best a l h ∙ best_from-eligible (raise best a) l (raise-nonneg best a h)

  number_compatible : List AgentStatus → ℕ
  number_compatible [] = 0
  number_compatible (a ∷ l) =
      if is_compatible run a then number_compatible l + 1 else number_compatible l

  compatible-scan_agent :
      (s : Scan) (a : AgentStatus) (l : List AgentStatus)
      → (scan_agent run s a).summary.compatible_agents +ℤ pos (number_compatible l)
        ≡ s.summary.compatible_agents +ℤ pos (number_compatible (a ∷ l))
  unfolding scan_agent number_compatible ◌+ℤ◌
  compatible-scan_agent s a l = ground arith

  -- Over valid agents the loop ends with no error, and has counted the compatible ones.
  scan_agents_total :
      (l : List AgentStatus) (s : Scan)
      → All (λ a. validate_agent_status a ≡ ok tt) l
      → ((scan_agents run s l).1 ≡ none)
        × ((scan_agents run s l).0.summary.compatible_agents
            ≡ s.summary.compatible_agents +ℤ pos (number_compatible l))
  unfolding scan_agents
  scan_agents_total [] s v = (refl, unfold number_compatible ◌+ℤ◌ in ground arith)
  scan_agents_total (a ∷ l) s v =
      let rest = scan_agents_total l (scan_agent run s a) v.1 in
      (ground (arith, rest, v.0), ground (arith, rest, v.0, compatible-scan_agent s a l))

  number_compatible-any :
      (l : List AgentStatus)
      → eq_ℤ (pos 0 +ℤ pos (number_compatible l)) (pos 0) ≡ not (any (is_compatible run) l)
  unfolding number_compatible any ◌+ℤ◌
  number_compatible-any [] = refl
  number_compatible-any (a ∷ l) = ground (arith, number_compatible-any l)

  first_candidate-any :
      (l : List AgentStatus)
      → pos 1 ≤ℤ required
      → is_some (first_candidate_with_capacity (eligible run l) required) ≡ any has_room l
  unfolding first_candidate_with_capacity eligible any
  first_candidate-any [] h = refl
  first_candidate-any (a ∷ l) h = ground (arith, first_candidate-any l h)

  required-pos : validate_bundle_run run ≡ ok tt → pos 1 ≤ℤ required
  required-pos h =
      let v = (validate_bundle_run_iff run).0 h in
      ground (arith, v.children.count, v.policies.in_flight)

  All-insert_agent :
      (P : AgentStatus → Type 0) (a : AgentStatus) (l : List AgentStatus)
      → P a
      → All P l
      → All P (insert_agent a l)
  unfolding insert_agent
  All-insert_agent P a [] h k = (h, tt)
  All-insert_agent P a (b ∷ l) h k = elim (Bool-cases (id_lt b a)) [
    | inl e ↦ rw e (k.0, All-insert_agent P a l h k.1)
    | inr e ↦ rw e (h, k)
  ]

  All-sort_agents :
      (P : AgentStatus → Type 0) (l : List AgentStatus) → All P l → All P (sort_agents l)
  unfolding sort_agents
  All-sort_agents P [] h = tt
  All-sort_agents P (a ∷ l) h = All-insert_agent P a (sort_agents l) h.0 (All-sort_agents P l h.1)

  choose-error :
      (s : PlanSummary) (cs : List Candidate)
      → (choose run s cs).1 ≡ (
          if is_some (first_candidate_with_capacity cs required)
          then none
          else some (insufficient_capacity required (best_candidate_capacity cs)))
  unfolding choose required_in_flight_slots
  choose-error s cs = ground arith

  -- The loop over sorted valid agents, with what the choice reads of it.
  record Scanned (l : List AgentStatus) (r : Scan × Option Error) : Type 0 where
    no_error : r.1 ≡ none
    candidates : r.0.candidates ≡ eligible run l
    counted : eq_ℤ r.0.summary.compatible_agents (pos 0) ≡ not (any (is_compatible run) l)

  scan_agents-Scanned :
      (n : ℕ) (l : List AgentStatus)
      → All (λ a. validate_agent_status a ≡ ok tt) l
      → Scanned l (scan_agents run (start_scan n) l)
  scan_agents-Scanned n l v =
      let (no_error, count) = scan_agents_total l (start_scan n) v in
      record {
        no_error = no_error;
        candidates =
            (scan_agents_lem run l (start_scan n) (scan_agents run (start_scan n) l).0
              (ground (arith, no_error))).0;
        counted = rw count (number_compatible-any l);
      }

  plan_of-error :
      (l : List AgentStatus) (r : Scan × Option Error)
      → Scanned l r
      → pos 1 ≤ℤ required
      → (plan_of run (finish_scan r)).1 ≡ (
          if any (is_compatible run) l
          then (if any has_room l
              then none
              else some (insufficient_capacity required (best_candidate_capacity (eligible run l))))
          else some no_compatible_agents)
  plan_of-error l r s h = ground (
    arith,
    s.no_error,
    s.candidates,
    s.counted,
    choose-error r.0.summary r.0.candidates,
    first_candidate-any l h,
  )

  has_room-compatible :
      (l : List AgentStatus) → any (is_compatible run) l ≡ false → any has_room l ≡ false
  unfolding any
  has_room-compatible [] h = refl
  has_room-compatible (a ∷ l) h = ground (arith, has_room-compatible l)

  best-sorted :
      (l : List AgentStatus) → best_candidate_capacity (eligible run (sort_agents l)) ≡ best_offer l
  unfolding best_candidate_capacity
  best-sorted l =
      best_from-eligible (pos 0) (sort_agents l) (omega arith)
      ∙ raise_all-best_offer (sort_agents l)
      ∙ best_offer-sort_agents l

  build-plan_of :
      (agents : List AgentStatus)
      → validate_bundle_run run ≡ ok tt
      → build_single_agent_sequential_plan run agents
        ≡ plan_of run
            (finish_scan (scan_agents run (start_scan (length agents)) (sort_agents agents)))
  unfolding build_single_agent_sequential_plan candidate_agents
  build-plan_of agents h = ground (arith, h)

  -- For an admitted run over valid agents, planning fails exactly if no compatible agent has room:
  -- for want of any compatible agent, or else with the slots that are needed and the most that a
  -- compatible agent offers.
  pub build_plan-error :
      (agents : List AgentStatus)
      → validate_bundle_run run ≡ ok tt
      → All (λ a. validate_agent_status a ≡ ok tt) agents
      → (build_single_agent_sequential_plan run agents).1 ≡ expected_error agents
  build_plan-error agents h v = ground (
    arith,
    build-plan_of agents h,
    plan_of-error (sort_agents agents)
        (scan_agents run (start_scan (length agents)) (sort_agents agents))
        (scan_agents-Scanned (length agents) (sort_agents agents) (All-sort_agents _ agents v))
        (required-pos h),
    any-sort_agents (is_compatible run) agents,
    any-sort_agents has_room agents,
    has_room-compatible agents,
    best-sorted agents,
  )
