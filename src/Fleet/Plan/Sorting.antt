-- ===== src/Fleet/Plan/Sorting.antt =====
-- The sort of candidateAgents in internal/fleet/coordinator.go.
use mathlib.Core.List.{Perm, Pairwise, Pairwise-cons, mem-cons, not-mem-nil}
use mathlib.Core.List.Perm
use mathlib.Core.Logic.Or
use k8s.Prelude.{◌≡◌, sym, subst, inl, inr, Bool-cases, true, false, List, [], ◌∷◌}
use k8s.Prelude.TextOrder.{str_lt_asymm, str_not_lt_trans}
use k8s.Fleet.Types.{AgentStatus}
use k8s.Fleet.Plan.{id_lt, insert_agent, sort_agents}

abbrev pub InOrder : List AgentStatus → Type 0
InOrder = Pairwise (λ a b. id_lt b a ≡ false)

insert_agent-perm : (a : AgentStatus) (l : List AgentStatus) → Perm (insert_agent a l) (a ∷ l)
unfolding insert_agent
insert_agent-perm a [] = Perm.rfl
insert_agent-perm a (b ∷ l) = elim (Bool-cases (id_lt b a)) [
  | inl e ↦ rw e (Perm.trans (Perm.cons b (insert_agent-perm a l)) (Perm.swap a b l))
  | inr e ↦ rw e Perm.rfl
]

pub sort_agents-perm_self : (l : List AgentStatus) → Perm (sort_agents l) l
unfolding sort_agents
sort_agents-perm_self [] = Perm.rfl
sort_agents-perm_self (a ∷ l) =
    Perm.trans (insert_agent-perm a (sort_agents l)) (Perm.cons a (sort_agents-perm_self l))

pub not_before-prop : (a b : AgentStatus) → IsProp (id_lt b a ≡ false)
not_before-prop a b = hlevel

id_lt_asymm : (a b : AgentStatus) → id_lt a b ≡ true → id_lt b a ≡ false
unfolding id_lt
id_lt_asymm a b h = str_lt_asymm a.agent_id b.agent_id h

not_before_trans : (a b c : AgentStatus) → id_lt b a ≡ false → id_lt c b ≡ false → id_lt c a ≡ false
unfolding id_lt
not_before_trans a b c h k = str_not_lt_trans a.agent_id b.agent_id c.agent_id h k

insert_agent-InOrder :
    (a : AgentStatus) (l : List AgentStatus) → InOrder l → InOrder (insert_agent a l)
unfolding insert_agent
insert_agent-InOrder a [] o = Pairwise.cons (λ b m. absurd (not-mem-nil m)) Pairwise.nil
insert_agent-InOrder a (b ∷ l) o = elim (Bool-cases (id_lt b a)) [
  | inl e ↦ rw e (
      Pairwise.cons
        (λ c m.
          Or.elim (not_before-prop b c) (mem-cons.0 ((Perm.mem_iff (insert_agent-perm a l)).0 m))
            (λ same. subst (λ x. id_lt x b ≡ false) (sym same) (id_lt_asymm b a e))
            ((Pairwise-cons.0 o).0 c))
        (insert_agent-InOrder a l (Pairwise-cons.0 o).1))
  | inr e ↦ rw e (
      Pairwise.cons
        (λ c m.
          Or.elim (not_before-prop a c) (mem-cons.0 m)
            (λ same. subst (λ x. id_lt x a ≡ false) (sym same) e)
            (λ later. not_before_trans a b c e ((Pairwise-cons.0 o).0 c later)))
        o)
]

pub sort_agents-InOrder : (l : List AgentStatus) → InOrder (sort_agents l)
unfolding sort_agents
sort_agents-InOrder [] = Pairwise.nil
sort_agents-InOrder (a ∷ l) = insert_agent-InOrder a (sort_agents l) (sort_agents-InOrder l)
