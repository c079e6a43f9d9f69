-- ===== src/Reconciler/Script/Branches.antt =====
-- What the branches of the `match` on the phase in src/controller/reconciler.rs send, on any
-- platform.
use k8s_operator_template.Prelude.{
  ℤ, pos, ◌≡◌, refl, sym, ap, ◌∙◌, some, List, [], ◌∷◌, ◌++◌, inl, inr, Bool-cases, Option, String,
}
use mathlib.Core.List.{append_assoc, append-nil}
use k8s_operator_template.Prelude.Result.{Result, ok, err}
use k8s_operator_template.Crd.{
  MyResource, Phase, pending, creating, running, updating, degraded, failed, deleting,
}
use k8s_operator_template.Errors.{Error, display}
use k8s_operator_template.Platform.Requests.{Platform, Request, Event, warning, publish}
use k8s_operator_template.Platform.Exec.{Exec, ◌>>=◌}
use k8s_operator_template.Platform.Events.{Context}
use k8s_operator_template.Platform.Traces.{Sends, Sends-map, Sends-bind, Sends-raise}
use k8s_operator_template.Platform.Emits.{Begins-later, Begins-earlier, Emits-then, Tells-then}
use k8s_operator_template.Reconciler.Actions.{
  validate_spec, create_owned_resources, check_ready_replicas,
}
use k8s_operator_template.Reconciler.Loop.{
  namespace_of, phase_of, spec_changed, refuse, from_validated, from_pending, from_creating,
  created, still_running, updated, recovered, stay_running, from_running, from_updating,
  from_degraded, next_phase,
}
use k8s_operator_template.Reconciler.Steady.Phases.{decide}
use k8s_operator_template.Reconciler.Script.Plan.{
  groundwork, read_deployment, applications, silent, Decided, Recorded, Refused, Breaks, at_refusal,
  of_spec, Known, unread, read,
}
use k8s_operator_template.Reconciler.Script.Actions.{
  check-then, normal_sends, warning_sends, create_sends, update_sends,
}
use k8s_operator_template.Reconciler.Script.Stops.{groundwork-Breaks}
use k8s_operator_template.Reconciler.Script.Notices.{
  TellsOf, tell, quiet, created-TellsOf, still_running-TellsOf, updated-TellsOf, recovered-TellsOf,
}

module _ {P : Platform} (ctx : Context) (obj : MyResource) where
  -- The `match` on the phase.
  abbrev pub Decides : Phase → Exec P Phase → Type 0
  Decides p m = Sends m (Decided (Known P obj p) ctx obj p) (Breaks P ctx obj)

  told :
      (p q : Phase) (n : ℤ) (m : Exec P Phase) (g : List Request → List Request)
      → TellsOf ctx obj p q m
      → q ≡ decide obj n p
      → Known P obj p n
      → ((ys : List Request) → g ys ≡ ys ++ groundwork obj p)
      → Sends m
          (λ r ys. Decided (Known P obj p) ctx obj p r (g ys))
          (λ e ys. Breaks P ctx obj e (g ys))
  told p q n m g h e count order =
      Sends-map m _ _ _ _ h
        (λ r ys k. record {
          ready = n;
          count = count;
          decision = k.0 ∙ e;
          events = ys;
          announced = rw k.0 k.1;
          order = order ys;
        })
        λ e ys k. absurd k

  -- The phase is decided by the ready count.
  counted_Decides :
      (p : Phase) (f : ℤ → Exec P Phase)
      → phase_of obj.status ≡ p
      → groundwork obj p ≡ read_deployment obj ∷ []
      → ((n : ℤ) → TellsOf ctx obj p (decide obj n p) (f n))
      → Decides p (check_ready_replicas obj (namespace_of obj) >>= f)
  counted_Decides p f at g h =
      check-then ctx obj f _ _ (λ e ys l. groundwork-Breaks P ctx obj p e ys at (l.0) (rw g (l.1)))
        λ n count.
          told p (decide obj n p) n (f n) _ (h n) refl (read count)
            λ ys. ap (λ zs. ys ++ zs) (sym g)

  -- The owned objects are applied, and then the phase is decided by the ready count.
  applied_Decides :
      (p : Phase) (f : ℤ → Exec P Phase)
      → phase_of obj.status ≡ p
      → groundwork obj p ≡ read_deployment obj ∷ applications obj
      → ((n : ℤ) → TellsOf ctx obj p (decide obj n p) (f n))
      → Decides p (
          create_owned_resources obj (namespace_of obj) >>= λ _.
          check_ready_replicas obj (namespace_of obj) >>= f)
  applied_Decides p f at g h =
      Emits-then _ _ _ _ _ (create_sends ctx obj)
        (λ e ys l.
          groundwork-Breaks P ctx obj p e ys at (l.0)
            (rw g (Begins-later (read_deployment obj ∷ []) ys _ (l.1))))
        λ _.
          check-then ctx obj f _ _
            (λ e ys l.
              groundwork-Breaks P ctx obj p e _ at (l.0)
                (rw g (Begins-earlier ys (read_deployment obj ∷ []) (applications obj) (l.1))))
            λ n count. told p (decide obj n p) n (f n) _ (h n) refl (read count) λ ys.
              append_assoc ys (read_deployment obj ∷ []) (applications obj)
              ∙ ap (λ zs. ys ++ zs) (sym g)

  -- The phase is decided without a request.
  plain_Decides :
      (p q : Phase) (m : Exec P Phase)
      → groundwork obj p ≡ []
      → TellsOf ctx obj p q m
      → q ≡ decide obj (pos 0) p
      → Decides p m
  plain_Decides p q m g h e =
      told p q (pos 0) m (λ ys. ys) h e (unread g)
        λ ys. sym (append-nil ys) ∙ ap (λ zs. ys ++ zs) (sym g)

  running_Decides : phase_of obj.status ≡ running → Decides running (from_running ctx obj)
  unfolding from_running stay_running decide
  running_Decides at = elim (Bool-cases (spec_changed obj)) [
    | inl fresh ↦ rw fresh (
        plain_Decides running updating _ (rw fresh)
          (tell ctx obj running updating _ _ (normal_sends ctx obj _ _ _) refl) (rw fresh))
    | inr same ↦ rw same (
        applied_Decides running (still_running ctx obj) at (rw same)
          λ n. rw same ((still_running-TellsOf ctx obj n)))
  ]

  refuse_Decides :
      (e : Error)
      → phase_of obj.status ≡ pending
      → validate_spec obj ≡ err e
      → Decides pending (refuse ctx obj e)
  refuse_Decides e at bad = Tells-then _ _ _ _ _ (warning_sends ctx obj _ _ _) λ _.
      Sends-bind _ _ _ _ _ _ (update_sends ctx obj failed (pos 0) _)
        (λ _ xs written. Sends-raise _ _ e (of_spec (refused _ xs written)))
        λ d xs (k, (full, is, first)).
          at_refusal k e _ (refused _ full is) (Begins-earlier xs full _ first)
    where
      event : Event
      event = record {
        type = warning;
        reason = "ValidationFailed";
        note = some (display P.show_kube e);
        action = "Validating";
      }

      refused :
          (Date : Option ℤ → String → Type 0) (xs : List Request)
          → Recorded Date obj failed (pos 0) (some (display P.show_kube e)) xs
          → Refused Date P.show_kube ctx obj e (xs ++ (publish ctx.reporter event obj ∷ []))
      refused Date xs is = record {
        starts = at;
        invalid = bad;
        event = event;
        type = refl;
        reason = refl;
        note = refl;
        written = xs;
        records = is;
        order = refl;
      }

  validated_Decides :
      (r : Result (Unit {0}) Error)
      → phase_of obj.status ≡ pending
      → validate_spec obj ≡ r
      → Decides pending (from_validated ctx obj r)
  unfolding decide
  validated_Decides (ok u) at valid =
      plain_Decides pending creating _ refl
        (tell ctx obj pending creating _ _ (normal_sends ctx obj _ _ _) refl) refl
  validated_Decides (err e) at bad = refuse_Decides e at bad

  pub next_phase_Decides : (p : Phase) → phase_of obj.status ≡ p → Decides p (next_phase ctx obj p)
  unfolding next_phase from_pending from_creating from_updating from_degraded decide
  next_phase_Decides pending at = validated_Decides (validate_spec obj) at refl
  next_phase_Decides creating at =
      applied_Decides creating (created ctx obj) at refl (created-TellsOf ctx obj)
  next_phase_Decides running at = running_Decides at
  next_phase_Decides updating at =
      applied_Decides updating (updated ctx obj) at refl (updated-TellsOf ctx obj)
  next_phase_Decides degraded at =
      counted_Decides degraded (recovered ctx obj) at refl (recovered-TellsOf ctx obj)
  next_phase_Decides failed at =
      plain_Decides failed failed _ refl (quiet ctx obj failed failed (silent refl refl)) refl
  next_phase_Decides deleting at =
      plain_Decides deleting deleting _ refl (quiet ctx obj deleting deleting (silent refl refl))
        refl
