-- ===== src/Fleet/Plan/Candidates.antt =====
-- The candidates of candidateAgents in internal/fleet/coordinator.go, and the first with capacity.
use mathlib.Core.List.{append_assoc, append-nil}
use k8s.Prelude.{
  ◌≡◌, refl, sym, ap, subst, ◌∙◌, some, none, ◌⊎◌, inl, inr, true, List, [], ◌∷◌, ◌++◌, arith, All,
  if◌then◌else◌, ◌&&◌,
}
use k8s.Prelude.Int.{ℤ, pos, ltb_ℤ, ◌<ℤ◌, ◌≤ℤ◌}
use k8s.Errors.{ok}
use k8s.Fleet.Types.{AgentStatus, BundleRun}
use k8s.Fleet.Validate.{validate_agent_status}
use k8s.Fleet.Plan.{
  Candidate, Scan, is_compatible, offered, scan_agent, scan_agents, first_candidate_with_capacity,
}

module _ (run : BundleRun) where
  -- The candidates of a list of valid agents.
  unfoldable pub eligible : List AgentStatus → List Candidate
  eligible [] = []
  eligible (a ∷ l) =
      if is_compatible run a && ltb_ℤ (pos 0) (offered run a)
      then (record { status = a; remaining = offered run a }) ∷ eligible l
      else eligible l

  candidates-scan_agent :
      (s : Scan) (a : AgentStatus) (l : List AgentStatus)
      → (scan_agent run s a).candidates ++ eligible l ≡ s.candidates ++ eligible (a ∷ l)
  unfolding scan_agent eligible
  candidates-scan_agent s a l = ground (
    arith,
    append_assoc s.candidates ((record { status = a; remaining = offered run a }) ∷ [])
        (eligible l),
  )

  -- A loop that ends with no error has seen valid agents only, and has their candidates.
  pub scan_agents_lem :
      (l : List AgentStatus) (s t : Scan)
      → scan_agents run s l ≡ (t, none)
      → (t.candidates ≡ s.candidates ++ eligible l) × All (λ a. validate_agent_status a ≡ ok tt) l
  unfolding scan_agents eligible
  scan_agents_lem [] s t h = (rw append-nil (ground arith), tt)
  scan_agents_lem (a ∷ l) s t h =
      ground (arith, scan_agents_lem l (scan_agent run s a) t, candidates-scan_agent s a l)

  -- Whether an agent can take a lease that needs that many slots at once.
  abbrev pub HasRoom : ℤ → AgentStatus → Type 0
  HasRoom required a =
      (is_compatible run a ≡ true) × (pos 0 <ℤ offered run a) × (required ≤ℤ offered run a)

  -- The first agent of a list that has room, and what stands around it.
  pub record Found (required : ℤ) (l : List AgentStatus) (c : Candidate) : Type 0 where
    pub before : List AgentStatus
    pub after : List AgentStatus
    pub splits : l ≡ before ++ (c.status ∷ after)
    pub room : HasRoom required c.status
    pub remaining : c.remaining ≡ offered run c.status
    pub none_before : All (λ b. ¬ HasRoom required b) before

  Found-skip :
      (required : ℤ) (a : AgentStatus) (l : List AgentStatus) (c : Candidate)
      → ¬ HasRoom required a
      → Found required l c
      → Found required (a ∷ l) c
  Found-skip required a l c n f = record {
    before = a ∷ f.before;
    after = f.after;
    splits = ap (λ t. a ∷ t) f.splits;
    room = f.room;
    remaining = f.remaining;
    none_before = (n, f.none_before);
  }

  Found-here :
      (required : ℤ) (a : AgentStatus) (l : List AgentStatus)
      → HasRoom required a
      → Found required (a ∷ l) (record { status = a; remaining = offered run a })
  Found-here required a l h = record {
    before = [];
    after = l;
    splits = refl;
    room = h;
    remaining = refl;
    none_before = tt;
  }

  HasRoom-cases :
      (required : ℤ) (a : AgentStatus) (l : List AgentStatus)
      → (HasRoom required a
          × (first_candidate_with_capacity (eligible (a ∷ l)) required
              ≡ some (record { status = a; remaining = offered run a })))
        ⊎ ((¬ HasRoom required a)
            × (first_candidate_with_capacity (eligible (a ∷ l)) required
                ≡ first_candidate_with_capacity (eligible l) required))
  unfolding eligible first_candidate_with_capacity
  HasRoom-cases required a l = ground arith

  pub first_candidate-Found :
      (required : ℤ) (l : List AgentStatus) (c : Candidate)
      → first_candidate_with_capacity (eligible l) required ≡ some c
      → Found required l c
  first_candidate-Found required [] c h = unfold eligible first_candidate_with_capacity in cc h
  first_candidate-Found required (a ∷ l) c h = elim (HasRoom-cases required a l) [
    | inl (room, e) ↦
        let same : ◌≡◌ {A = Candidate} (record { status = a; remaining = offered run a }) c =
          cc (e, h) in
        subst (Found required (a ∷ l)) same (Found-here required a l room)
    | inr (n, e) ↦ Found-skip required a l c n (first_candidate-Found required l c (sym e ∙ h))
  ]

  pub first_candidate-none :
      (required : ℤ) (l : List AgentStatus)
      → first_candidate_with_capacity (eligible l) required ≡ none
      → All (λ a. ¬ HasRoom required a) l
  first_candidate-none required [] h = tt
  first_candidate-none required (a ∷ l) h = elim (HasRoom-cases required a l) [
    | inl (room, e) ↦ cc (e, h)
    | inr (n, e) ↦ (n, first_candidate-none required l (sym e ∙ h))
  ]
