-- ===== src/Reconciler/Script/Visit.antt =====
-- A whole visit of src/controller/reconciler.rs to a live resource, on any platform.
use k8s_operator_template.Prelude.{ℤ, pos, ◌≡◌, refl, ap, ◌∙◌, sym, none, List, [], ◌∷◌, ◌++◌}
use mathlib.Core.List.{append_assoc}
use k8s_operator_template.Prelude.Result.{or_default}
use k8s_operator_template.Crd.{MyResource, Phase}
use k8s_operator_template.Errors.{Error}
use k8s_operator_template.Platform.Requests.{Platform, Request}
use k8s_operator_template.Platform.Exec.{
  State, pure, ◌>>=◌, ◌>>◌, attempt, start_timer, elapsed, with_health,
}
use k8s_operator_template.Platform.Events.{Context}
use k8s_operator_template.Platform.Outcomes.{Ended, Ended-bind}
use k8s_operator_template.Platform.Traces.{Trace, Sends, Sends-attempt}
use k8s_operator_template.Platform.Emits.{Begins-earlier}
use k8s_operator_template.Reconciler.Actions.{requeue, check_ready_replicas, update_status}
use k8s_operator_template.Reconciler.Loop.{
  namespace_of, phase_of, requeue_duration, visited, finish, progress, next_phase, dispatch,
  reconcile,
}
use k8s_operator_template.Reconciler.Moves.{IsLive}
use k8s_operator_template.Reconciler.Script.Plan.{
  read_deployment, Decided, Recorded, Follows, Fails, Breaks, at_work, Known, Polled, answered,
  refused, Dated, AnyCount,
}
use k8s_operator_template.Reconciler.Script.Actions.{StopsRecording, check_asks, update_sends}
use k8s_operator_template.Reconciler.Script.Branches.{next_phase_Decides}

module _ {P : Platform} (ctx : Context) (obj : MyResource) where
  -- The plan forgets the answers.
  assumed :
      (q : Phase) (xs : List Request)
      → Decided (Known P obj (phase_of obj.status)) ctx obj (phase_of obj.status) q xs
      → Decided AnyCount ctx obj (phase_of obj.status) q xs
  assumed q xs h = record {
    ready = h.ready;
    count = tt;
    decision = h.decision;
    events = h.events;
    announced = h.announced;
    order = h.order;
  }

  -- The status is not recorded.
  fails :
      (q : Phase) (n : ℤ) (s u : State P) (decided : List Request) (e : Error) (v : State P)
      → Decided (Known P obj (phase_of obj.status)) ctx obj (phase_of obj.status) q decided
      → u.log ≡ read_deployment obj ∷ (decided ++ s.log)
      → u.health ≡ s.health
      → Trace u v (StopsRecording obj q n none e)
      → Fails ctx obj s e v
  fails q n s u decided e v decides log same h =
      let before = read_deployment obj ∷ decided in
      let (k, (full, is, first)) = h.holds in
      record {
        sent = h.requests ++ before;
        log = h.log ∙ ap (λ r. h.requests ++ r) log ∙ sym (append_assoc h.requests before s.log);
        cause =
            at_work k (full ++ before)
              (record {
                phase = q;
                decided = decided;
                decides = assumed q decided decides;
                counted = n;
                written = full;
                records = is;
                order = refl;
              })
              (Begins-earlier h.requests full before first);
        metrics = h.health ∙ same;
      }

  attempts :
      Sends {P = P}
        (attempt (check_ready_replicas obj (namespace_of obj)))
        (λ r xs. (xs ≡ read_deployment obj ∷ []) × Polled P obj (or_default r (pos 0)))
        (λ e xs. ⊥)
  attempts =
      Sends-attempt (check_ready_replicas obj (namespace_of obj)) _ _ _ _ (check_asks ctx obj)
        (λ n xs h. (h.0, answered (h.1))) λ e xs h. (h.0, refused (h.2.0) (h.2.1.0) (h.2.1.1) refl)

  asked_log :
      (C : Type 0) (s t u : State P) (xs : List Request)
      → t.log ≡ xs ++ s.log
      → Trace t u (λ ys. (ys ≡ read_deployment obj ∷ []) × C)
      → u.log ≡ read_deployment obj ∷ (xs ++ s.log)
  asked_log C s t u xs log h =
      h.log
      ∙ ap (λ (r : List Request). r ++ t.log) (h.holds.0)
      ∙ ap (λ r. read_deployment obj ∷ r) log

  -- The metrics and the next visit.
  metered :
      (timer : P.Instant) (q : Phase) (s t u : State P) (decided written : List Request) (n : ℤ)
      → Decided (Known P obj (phase_of obj.status)) ctx obj (phase_of obj.status) q decided
      → Polled P obj n
      → Recorded (Dated P obj) obj q n none written
      → u.log ≡ written ++ (read_deployment obj ∷ (decided ++ s.log))
      → u.health ≡ s.health
      → Ended {P = P}
          (do
            duration ← elapsed timer
            with_health (visited P.prometheus obj duration n)
            pure (requeue (requeue_duration q)))
          u
          (Follows ctx obj s)
          (Fails ctx obj s)
  unfolding elapsed with_health ◌>>=◌
  metered timer q s t u decided written n decides count records log same = record {
    outcome = record {
      phase = q;
      decided = decided;
      decides = decides;
      counted = n;
      count = count;
      written = written;
      records = records;
      log = log;
      action = refl;
      duration = (P.elapsed timer u.world).0;
      metrics = rw same;
    };
  }

  finish-Follows :
      (timer : P.Instant) (q : Phase) (s t : State P)
      → Trace s t (Decided (Known P obj (phase_of obj.status)) ctx obj (phase_of obj.status) q)
      → Ended (finish ctx obj timer q) t (Follows ctx obj s) (Fails ctx obj s)
  unfolding finish
  finish-Follows timer q s t h =
      Ended-bind (attempt (check_ready_replicas obj (namespace_of obj))) _ t _ _ _ _ (attempts t)
        (λ r u asked.
          Ended-bind
            (update_status (namespace_of obj) obj.metadata.name_any q (or_default r (pos 0)) none) _
            u _ _ _ _ (update_sends ctx obj q (or_default r (pos 0)) none u)
            (λ _ v put.
              metered timer q s t v h.requests put.requests (or_default r (pos 0)) h.holds
                (asked.holds.1) put.holds
                (put.log ∙ ap (λ r. put.requests ++ r) (asked_log _ s t u h.requests h.log asked))
                (put.health ∙ asked.health ∙ h.health))
            λ e v k.
              fails q (or_default r (pos 0)) s u h.requests e v h.holds
                (asked_log _ s t u h.requests h.log asked) (asked.health ∙ h.health) k)
        λ e u k. absurd k.holds

  -- The log and the metrics are the same in two states.
  since :
      (s t u : State P) (R : List Request → Type 0)
      → t.log ≡ s.log
      → t.health ≡ s.health
      → Trace t u R
      → Trace s u R
  since s t u R log same h = record {
    requests = h.requests;
    log = h.log ∙ ap (λ r. h.requests ++ r) log;
    health = h.health ∙ same;
    holds = h.holds;
  }

  progress-Follows :
      (timer : P.Instant) (s t : State P)
      → t.log ≡ s.log
      → t.health ≡ s.health
      → Ended (progress ctx obj timer) t (Follows ctx obj s) (Fails ctx obj s)
  unfolding progress
  progress-Follows timer s t log same =
      Ended-bind (next_phase ctx obj (phase_of obj.status)) (finish ctx obj timer) t _ _ _ _
        (next_phase_Decides ctx obj (phase_of obj.status) refl t)
        (λ q u h. finish-Follows timer q s u (since s t u _ log same h))
        λ e u h.
          let k = since s t u (Breaks P ctx obj e) log same h in
          record { sent = k.requests; log = k.log; cause = k.holds; metrics = k.health }

  live-Follows :
      (timer : P.Instant) (s t : State P)
      → IsLive obj
      → Ended (progress ctx obj timer) t (Follows ctx obj s) (Fails ctx obj s)
      → Ended (dispatch ctx obj timer) t (Follows ctx obj s) (Fails ctx obj s)
  live-Follows timer s t alive h = rw (alive.kept, alive.claimed) h

  -- Whatever the platform answers, a visit to a live resource that has a result sent the requests
  -- of the plan for its phase, in its order: those before the phase is decided, an event if the
  -- phase changes, a read of the deployment, a read of the resource and the patch of the status,
  -- which records the phase that `decide` gives; it asks for the next visit after the delay of that
  -- phase and counts the visit. The number of ready replicas that the phase is decided by is what
  -- the platform answers, in some state of its world, to the read of the deployment (none if it
  -- reports none or is not found); so is the recorded number, where an error also counts as none;
  -- the recorded generation is that of an answer to the read of the resource. A visit that has an
  -- error counts none. Either the error is kube's, and the requests it sent are the first of such a
  -- plan, or of the refusal of a pending resource's spec (an event with the refusal's error, then a
  -- read of the resource and the patch of its status to Failed); or the error is that of an invalid
  -- spec of a pending resource, and it sent that whole refusal.
  pub reconcile-Follows :
      (s : State P) → IsLive obj → Ended (reconcile ctx obj) s (Follows ctx obj s) (Fails ctx obj s)
  unfolding reconcile start_timer ◌>>=◌
  reconcile-Follows s alive =
      let timer = (P.start_timer s.world).0 in
      let t : State P = record s { world = (P.start_timer s.world).1 } in
      record {
        outcome = (live-Follows timer s t alive (progress-Follows timer s t refl refl)).outcome;
      }
