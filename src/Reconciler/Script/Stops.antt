-- ===== src/Reconciler/Script/Stops.antt =====
-- A visit of src/controller/reconciler.rs that stops before its phase is decided.
use k8s_operator_template.Prelude.{
  pos, String, ◌≡◌, refl, sym, List, [], ◌∷◌, ◌++◌, inl, inr, Option-cases, none, subst,
}
use k8s_operator_template.Crd.{MyResource, Phase}
use k8s_operator_template.Errors.{Error}
use k8s_operator_template.Platform.Requests.{Platform, Request, Event, EventType, publish}
use k8s_operator_template.Platform.Events.{Context}
use k8s_operator_template.Platform.Emits.{IsKube, Begins, Begins-later}
use k8s_operator_template.Reconciler.Loop.{phase_of}
use k8s_operator_template.Reconciler.Steady.Phases.{decide}
use k8s_operator_template.Reconciler.Script.Plan.{
  AnyDate, groundwork, read_resource, read_deployment, recording, notice, Announces, silent, tells,
  Planned, Breaks, at_work,
}
use k8s_operator_template.Reconciler.Script.Actions.{recorded}

-- An event that tells of a change of phase, if one is due.
announced :
    (ctx : Context) (obj : MyResource) (p q : Phase)
    → (events : List Request) × Announces ctx obj p q events
announced ctx obj p q = elim (Option-cases (notice p q)) [
  | inl none_due ↦ ([], silent none_due refl)
  | inr (due, is) ↦
      let event = told_by (due.0) (due.1) in
      (publish ctx.reporter event obj ∷ [], tells event is refl)
]
  where
    told_by : EventType → String → Event
    told_by type reason = record { type = type; reason = reason; note = none; action = "" }

-- A plan that starts with the groundwork of the phase.
groundwork-Planned :
    (ctx : Context) (obj : MyResource) (ys : List Request)
    → Begins ys (groundwork obj (phase_of obj.status))
    → (plan : List Request) × Planned ctx obj plan × Begins ys plan
groundwork-Planned ctx obj ys b =
    let p = phase_of obj.status in
    let q = decide obj (pos 0) p in
    let (events, told) = announced ctx obj p q in
    let written = recording obj q (pos 0) none "" none ∷ read_resource obj ∷ [] in
    (
      written ++ (read_deployment obj ∷ (events ++ groundwork obj p)),
      record {
        phase = q;
        decided = events ++ groundwork obj p;
        decides = record {
          ready = pos 0;
          count = tt;
          decision = refl;
          events = events;
          announced = told;
          order = refl;
        };
        counted = pos 0;
        written = written;
        records = recorded AnyDate obj q (pos 0) none none "" tt;
        order = refl;
      },
      Begins-later (written ++ (read_deployment obj ∷ events)) ys (groundwork obj p) b,
    )

-- An error of the groundwork.
pub groundwork-Breaks :
    (P : Platform) (ctx : Context) (obj : MyResource) (p : Phase) (e : Error) (ys : List Request)
    → phase_of obj.status ≡ p
    → IsKube e
    → Begins ys (groundwork obj p)
    → Breaks P ctx obj e ys
groundwork-Breaks P ctx obj p e ys at k b =
    let (plan, is, first) =
      groundwork-Planned ctx obj ys (subst (λ r. Begins ys (groundwork obj r)) (sym at) b) in
    at_work k plan is first
