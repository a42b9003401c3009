-- ===== src/Fleet/Plan/Order.antt =====
-- The plan of internal/fleet/coordinator.go and the order in which agents are listed.
use mathlib.Core.List.{Permᴰ, Pairwise, Pairwise-cons, rel_of_Pairwise-cons, mem-cons_self}
use mathlib.Core.List.Permᴰ
use mathlib.Core.Path.{ap₂}
use k8s.Prelude.{
  ◌≡◌, ◌≢◌, refl, sym, ap, ◌∙◌, suc, some, ◌⊎◌, inl, inr, Bool-cases, true, false, List, [], ◌∷◌,
  arith, length,
}
use k8s.Prelude.Text.{str_lt}
use k8s.Prelude.TextOrder.{str_lt_asymm, str_lt_connected, str_not_lt_trans}
use k8s.Fleet.Types.{AgentStatus, BundleRun}
use k8s.Errors.{ok, err}
use k8s.Fleet.Validate.{validate_bundle_run}
use k8s.Fleet.Plan.{
  empty_plan, plan_of, finish_scan, scan_agents, start_scan, id_lt, insert_agent, sort_agents,
  candidate_agents, build_single_agent_sequential_plan,
}

-- The two steps of an insertion.
insert_past :
    (a b : AgentStatus) (l : List AgentStatus)
    → id_lt b a ≡ true
    → insert_agent a (b ∷ l) ≡ b ∷ insert_agent a l
unfolding insert_agent
insert_past a b l h = rw h

insert_here :
    (a b : AgentStatus) (l : List AgentStatus)
    → id_lt b a ≡ false
    → insert_agent a (b ∷ l) ≡ a ∷ b ∷ l
unfolding insert_agent
insert_here a b l h = rw h

-- Of two agents with different ids exactly one comes first.
id_lt-cases :
    (a b : AgentStatus)
    → a.agent_id ≢ b.agent_id
    → ((id_lt a b ≡ true) × (id_lt b a ≡ false)) ⊎ ((id_lt a b ≡ false) × (id_lt b a ≡ true))
unfolding id_lt
id_lt-cases a b h = ground (
  arith,
  str_lt_asymm a.agent_id b.agent_id,
  str_lt_asymm b.agent_id a.agent_id,
  str_lt_connected a.agent_id b.agent_id,
)

-- `c` precedes `a` and not `b`: so `b` precedes `a`.
id_lt_between : (a b c : AgentStatus) → id_lt c a ≡ true → id_lt c b ≡ false → id_lt b a ≡ true
unfolding id_lt
id_lt_between a b c h k = elim (Bool-cases (str_lt b.agent_id a.agent_id)) [
  | inl e ↦ e
  | inr e ↦ cc (h, str_not_lt_trans a.agent_id b.agent_id c.agent_id e k)
]

insert_two :
    (a b : AgentStatus)
    → a.agent_id ≢ b.agent_id
    → insert_agent a (b ∷ []) ≡ insert_agent b (a ∷ [])
unfolding insert_agent
insert_two a b h = ground (arith, id_lt-cases a b h)

-- Both in front of `c`.
insert_two_here :
    (a b c : AgentStatus) (l : List AgentStatus)
    → a.agent_id ≢ b.agent_id
    → id_lt c a ≡ false
    → id_lt c b ≡ false
    → insert_agent a (b ∷ c ∷ l) ≡ insert_agent b (a ∷ c ∷ l)
insert_two_here a b c l h ha hb = elim (id_lt-cases a b h) [
  | inl (ab, ba) ↦
      insert_here a b (c ∷ l) ba
      ∙ ap (λ t. a ∷ t) (sym (insert_here b c l hb))
      ∙ sym (insert_past b a (c ∷ l) ab)
  | inr (ab, ba) ↦
      insert_past a b (c ∷ l) ba
      ∙ ap (λ t. b ∷ t) (insert_here a c l ha)
      ∙ sym (insert_here b a (c ∷ l) ab)
]

-- `a` behind `c`, and `b` in front of it.
insert_across :
    (a b c : AgentStatus) (l : List AgentStatus)
    → a.agent_id ≢ b.agent_id
    → id_lt c a ≡ true
    → id_lt c b ≡ false
    → insert_agent a (b ∷ c ∷ l) ≡ insert_agent b (c ∷ insert_agent a l)
insert_across a b c l h ha hb =
    insert_past a b (c ∷ l) (id_lt_between a b c ha hb)
    ∙ ap (λ t. b ∷ t) (insert_past a c l ha)
    ∙ sym (insert_here b c (insert_agent a l) hb)

insert_agent_comm :
    (a b : AgentStatus) (l : List AgentStatus)
    → a.agent_id ≢ b.agent_id
    → insert_agent a (insert_agent b l) ≡ insert_agent b (insert_agent a l)
insert_agent_comm a b [] h = unfold insert_agent in insert_two a b h
insert_agent_comm a b (c ∷ l) h = elim (Bool-cases (id_lt c a)) [
  | inl ha ↦ elim (Bool-cases (id_lt c b)) [
    | inl hb ↦
        rw (insert_past a c l ha, insert_past b c l hb)
          (insert_past a c _ ha
            ∙ ap (λ t. c ∷ t) (insert_agent_comm a b l h)
            ∙ sym (insert_past b c _ hb))
    | inr hb ↦ rw (insert_past a c l ha, insert_here b c l hb) (insert_across a b c l h ha hb)
  ]
  | inr ha ↦ elim (Bool-cases (id_lt c b)) [
    | inl hb ↦
        rw (insert_here a c l ha, insert_past b c l hb)
          (sym (insert_across b a c l (λ e. h (sym e)) hb ha))
    | inr hb ↦ rw (insert_here a c l ha, insert_here b c l hb) (insert_two_here a b c l h ha hb)
  ]
]

abbrev pub HasDistinctIds : List AgentStatus → Type 0
HasDistinctIds = Pairwise (λ a b. a.agent_id ≢ b.agent_id)

HasDistinctIds-perm : {l m : List AgentStatus} → Permᴰ l m → HasDistinctIds l → HasDistinctIds m
HasDistinctIds-perm = Permᴰ.pairwise (λ a b. hlevel) (λ x y h e. h (sym e))

sort_agents-perm :
    {l m : List AgentStatus} → Permᴰ l m → HasDistinctIds l → sort_agents l ≡ sort_agents m
unfolding sort_agents
sort_agents-perm Permᴰ.nil d = refl
sort_agents-perm (Permᴰ.cons e p) d = ap₂ insert_agent e (sort_agents-perm p (Pairwise-cons.0 d).1)
sort_agents-perm (Permᴰ.swap {a = a} {b = b} {l = l} e f) d =
    insert_agent_comm a b (sort_agents l) (rel_of_Pairwise-cons d mem-cons_self)
    ∙ ap₂ (λ x y. insert_agent x (insert_agent y (sort_agents l))) f e
sort_agents-perm (Permᴰ.trans p q) d =
    sort_agents-perm p d ∙ sort_agents-perm q (HasDistinctIds-perm p d)

length-perm : {l m : List AgentStatus} → Permᴰ l m → length l ≡ length m
length-perm Permᴰ.nil = refl
length-perm (Permᴰ.cons e p) = ap suc (length-perm p)
length-perm (Permᴰ.swap e f) = refl
length-perm (Permᴰ.trans p q) = length-perm p ∙ length-perm q

candidate_agents-perm :
    {l m : List AgentStatus} (run : BundleRun)
    → Permᴰ l m
    → HasDistinctIds l
    → candidate_agents run l ≡ candidate_agents run m
unfolding candidate_agents
candidate_agents-perm run p d =
    ap₂ (λ n s. finish_scan (scan_agents run (start_scan n) s)) (length-perm p)
      (sort_agents-perm p d)

-- Two inventories that list the same agents, with distinct ids, have the same plan, the summary
-- and the error included.
pub build_plan-perm :
    {l m : List AgentStatus} (run : BundleRun)
    → Permᴰ l m
    → HasDistinctIds l
    → build_single_agent_sequential_plan run l ≡ build_single_agent_sequential_plan run m
unfolding build_single_agent_sequential_plan
build_plan-perm run p d = λ i. elim (validate_bundle_run run) [
  | err e ↦ (empty_plan, some e)
  | ok _ ↦ plan_of run (candidate_agents-perm run p d i)
]
