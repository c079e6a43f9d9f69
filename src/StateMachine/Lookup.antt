-- ===== src/StateMachine/Lookup.antt =====
-- The three look-ups of src/controller/state_machine.rs agree: `transition`, `can_transition` and
-- `valid_events`, for every table.
use k8s_operator_template.Prelude.{
  true, false, ◌≡◌, refl, sym, ◌↔◌, inl, inr, List, [], ◌∷◌, arith, Bool-cases, is_some,
}
use mathlib.Core.List.Memᴰ
use mathlib.Core.List.{Memᴰ}
use k8s_operator_template.Crd.{Phase, pending, phase_eq}
use k8s_operator_template.StateMachine.Event.{ResourceEvent, resources_applied, event_eq}
use k8s_operator_template.StateMachine.Context.{TransitionContext}
use k8s_operator_template.StateMachine.Table.{
  Transition, invalid_transition, ResourceStateMachine, transition, can_transition, valid_events,
  find_transition, events_from,
}

phase_eq_iff : (p q : Phase) → (phase_eq p q ≡ true) ↔ (p ≡ q)
phase_eq_iff pending q = grind arith
phase_eq_iff p q = grind arith

event_eq_iff : (d e : ResourceEvent) → (event_eq d e ≡ true) ↔ (d ≡ e)
event_eq_iff resources_applied e = grind arith
event_eq_iff d e = grind arith

module _ (p : Phase) (e : ResourceEvent) where
  mem_of_found :
      (ts : List Transition) → is_some (find_transition ts p e) ≡ true → Memᴰ e (events_from ts p)
  unfolding find_transition events_from
  mem_of_found [] h = cc
  mem_of_found (t ∷ ts) h = elim (Bool-cases (phase_eq t.from p)) [
    | inl same ↦ elim (Bool-cases (event_eq t.event e)) [
      | inl hit ↦ rw same (Memᴰ.head (sym ((event_eq_iff t.event e).0 hit)))
      | inr miss ↦ rw same (Memᴰ.tail (mem_of_found ts (rw (same, miss) at h)))
    ]
    | inr other ↦ rw other (mem_of_found ts (rw other at h))
  ]

  found_of_mem :
      (ts : List Transition) → Memᴰ e (events_from ts p) → is_some (find_transition ts p e) ≡ true
  unfolding find_transition events_from
  found_of_mem (t ∷ ts) h = elim (Bool-cases (phase_eq t.from p)) [
    | inl same ↦ elim (Memᴰ.cases_cons (rw same at h)) [
      | inl hit ↦ rw (same, (event_eq_iff t.event e).1 (sym hit)) refl
      | inr later ↦ ground (arith, found_of_mem ts later)
    ]
    | inr other ↦ rw other (found_of_mem ts (rw other at h))
  ]
  found_of_mem [] h = absurd (Memᴰ.not-nil h)

-- In every machine the events listed for a phase are those that `can_transition` accepts.
pub mem-valid_events_iff :
    (sm : ResourceStateMachine) (p : Phase) (e : ResourceEvent)
    → Memᴰ e (valid_events sm p) ↔ (can_transition sm p e ≡ true)
unfolding valid_events can_transition
mem-valid_events_iff sm p e = (found_of_mem p e sm.transitions, mem_of_found p e sm.transitions)

-- In every machine an event is reported as invalid exactly when `can_transition` rejects it, with
-- the phase and the event of the call.
pub transition-invalid_iff :
    (sm : ResourceStateMachine) (p : Phase) (e : ResourceEvent) (ctx : TransitionContext)
    → (transition sm p e ctx ≡ invalid_transition p e) ↔ (can_transition sm p e ≡ false)
unfolding transition can_transition
transition-invalid_iff sm p e ctx = ground arith
