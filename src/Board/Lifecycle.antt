-- ===== src/Board/Lifecycle.antt =====
-- The diagram that VALID_AGENT_STATUS_TRANSITIONS draws (shared/constants.ts), as a step relation.
use infinite_kanban.Prelude.{true, ◌≡◌, refl, ◌⊎◌, inl, inr, List, [], ◌∷◌, arith, In, subst}
use infinite_kanban.Board.Defs.{
  AgentStatus, idle, planning, executing, awaiting_clarification, complete,
  can_transition_agent_status,
}

-- A history of statuses, the latest first: each one was entered by a permitted transition.
pub data History (start : AgentStatus) : AgentStatus → List AgentStatus → Type 0 where
  begin : History start start (start ∷ [])
  enter :
      {s : AgentStatus} {past : List AgentStatus} (t : AgentStatus)
      → History start s past
      → can_transition_agent_status s t ≡ true
      → History start t (t ∷ past)

into_complete : (s : AgentStatus) → can_transition_agent_status s complete ≡ true → s ≡ executing
unfolding can_transition_agent_status
into_complete s h = ground arith

into_executing :
    (s : AgentStatus)
    → can_transition_agent_status s executing ≡ true
    → (s ≡ planning) ⊎ (s ≡ awaiting_clarification)
unfolding can_transition_agent_status
into_executing s h = ground arith

into_awaiting :
    (s : AgentStatus) → can_transition_agent_status s awaiting_clarification ≡ true → s ≡ executing
unfolding can_transition_agent_status
into_awaiting s h = ground arith

-- Statuses that a run has been through before it can be where it is.
abbrev pub Needs : AgentStatus → List AgentStatus → Type 0
Needs executing past = In planning past
Needs awaiting_clarification past = In planning past × In executing past
Needs complete past = In planning past × In executing past
Needs _ past = Unit

now-In : {start s : AgentStatus} {past : List AgentStatus} → History start s past → In s past
now-In begin = inl refl
now-In (enter t h ok) = inl refl

weaken : (s t : AgentStatus) (past : List AgentStatus) → Needs s past → Needs s (t ∷ past)
weaken executing t past n = inr n
weaken awaiting_clarification t past n = (inr n.0, inr n.1)
weaken complete t past n = (inr n.0, inr n.1)
weaken _ t past n = tt

enter_Needs :
    (s t : AgentStatus) (past : List AgentStatus)
    → In s past
    → Needs s past
    → can_transition_agent_status s t ≡ true
    → Needs t past
enter_Needs s executing past m n ok = elim (into_executing s ok) [
  | inl e ↦ subst (λ x. In x past) e m
  | inr e ↦ (subst (λ x. Needs x past) e n).0
]
enter_Needs s awaiting_clarification past m n ok =
    let e = into_awaiting s ok in (subst (λ x. Needs x past) e n, subst (λ x. In x past) e m)
enter_Needs s complete past m n ok =
    let e = into_complete s ok in (subst (λ x. Needs x past) e n, subst (λ x. In x past) e m)
enter_Needs s idle past m n ok = tt
enter_Needs s _ past m n ok = tt

-- Along permitted transitions from idle, a status is complete or waits for a clarification only
-- after it was executing, and is executing only after it was planning.
pub History-Needs : {s : AgentStatus} {past : List AgentStatus} → History idle s past → Needs s past
History-Needs begin = tt
History-Needs (enter {s = s} {past = past} t h ok) =
    weaken t t past (enter_Needs s t past (now-In h) (History-Needs h) ok)
