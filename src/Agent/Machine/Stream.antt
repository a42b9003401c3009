-- ===== src/Agent/Machine/Stream.antt =====
-- What a stream of run events has to look like for TerminalEvent of internal/agent/machine.go.
use k8s.Prelude.{
  ◌≡◌, ◌↔◌, refl, sym, ap, ◌∙◌, true, false, List, [], ◌∷◌, ◌++◌, none, All, Bool-cases, inl, inr,
}
use k8s.Errors.{ok}
use k8s.Agent.Machine.{RunEvent, terminal, find_terminal, terminal_event}

-- A stream that ends with its one terminal event, which is `t`.
pub record EndsWith (events : List RunEvent) (t : RunEvent) : Type 0 where
  pub before : List RunEvent
  pub splits : events ≡ before ++ (t ∷ [])
  pub quiet : All (λ e. terminal e ≡ false) before
  pub ends : terminal t ≡ true

ok-injective : (a b : RunEvent) → ok a ≡ ok b → a ≡ b
ok-injective a b h = cc

find_terminal-EndsWith :
    (events : List RunEvent) (t : RunEvent) → find_terminal none events ≡ ok t → EndsWith events t
unfolding find_terminal
find_terminal-EndsWith [] t = λ h. absurd cc
find_terminal-EndsWith (e ∷ []) t = elim (Bool-cases (terminal e)) [
  | inl last ↦
      rw (last, find_terminal)
        (λ h. record {
          before = [];
          splits = ap (λ x. x ∷ []) (ok-injective e t h);
          quiet = tt;
          ends = ap terminal (sym (ok-injective e t h)) ∙ last;
        })
  | inr other ↦ rw (other, find_terminal) (λ h. absurd cc)
]
find_terminal-EndsWith (e ∷ f ∷ es) t = elim (Bool-cases (terminal e)) [
  | inl last ↦ rw (last, find_terminal) (λ h. absurd cc)
  | inr other ↦
      rw (other, find_terminal)
        (λ h.
          let rest = find_terminal-EndsWith (f ∷ es) t h in
          record {
            before = e ∷ rest.before;
            splits = ap (λ x. e ∷ x) rest.splits;
            quiet = (other, rest.quiet);
            ends = rest.ends;
          })
]

find_terminal_split :
    (before : List RunEvent) (t : RunEvent)
    → All (λ e. terminal e ≡ false) before
    → terminal t ≡ true
    → find_terminal none (before ++ (t ∷ [])) ≡ ok t
unfolding find_terminal
find_terminal_split [] t q h = rw (h, find_terminal) refl
find_terminal_split (e ∷ es) t q h = rw (q.0, find_terminal) (find_terminal_split es t q.1 h)

-- A stream has the terminal event `t` exactly if it ends with `t`, `t` is terminal, and no event
-- before it is.
pub terminal_event_iff :
    (events : List RunEvent) (t : RunEvent) → (terminal_event events ≡ ok t) ↔ EndsWith events t
unfolding terminal_event
terminal_event_iff events t = (
  find_terminal-EndsWith events t,
  λ v. ap (find_terminal none) v.splits ∙ find_terminal_split v.before t v.quiet v.ends,
)
