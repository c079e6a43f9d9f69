-- ===== src/Reconciler/Script/Actions.antt =====
-- What the actions of src/controller/reconciler.rs send, on any platform.
use k8s_operator_template.Prelude.{
  pos, ℤ, String, ◌≡◌, refl, ap, Option, none, List, [], ◌∷◌, ◌++◌, inl, inr, Bool-cases,
  Option-cases, subst, sym, ◌∙◌,
}
use k8s_operator_template.Prelude.Result.{Result, ok, err}
use k8s_operator_template.Crd.{MyResource, Phase}
use k8s_operator_template.Errors.{Error, KubeError, api, service, other}
use k8s_operator_template.Resources.Types.{Deployment}
use k8s_operator_template.Resources.Generate.{
  generate_configmap, generate_deployment, generate_service,
}
use k8s_operator_template.Platform.Requests.{
  Platform, Request, Event, normal, warning, publish, apply_configmap, apply_deployment,
  apply_service,
}
use k8s_operator_template.Platform.Exec.{Exec, pure, send, call, timestamp, ◌>>=◌}
use k8s_operator_template.Platform.Events.{Context, publish_normal_event, publish_warning_event}
use k8s_operator_template.Platform.Traces.{
  Sends, Sends-call, Sends-timestamp, Sends-bind, Sends-map, Sends-pure, Sends-raise, Sends-send,
}
use k8s_operator_template.Platform.Emits.{
  IsKube, Stops, from_kube, Begins, Begins-all, Begins-later, Emits, Emits-bind, Emits-call, Tells,
  Tells-then, Tells-send,
}
use k8s_operator_template.Reconciler.Actions.{
  forced_params, ready_of, ready_count, create_owned_resources, check_ready_replicas, update_status,
}
use k8s_operator_template.Reconciler.Loop.{namespace_of}
use k8s_operator_template.Reconciler.Script.Plan.{
  read_resource, read_deployment, applications, recording, Recorded, Reads, reported, unset, blank,
  missing, Counted, Dated, AnyDate,
}

-- The error is kube's, and only the first requests for the status were sent.
abbrev pub StopsRecording : MyResource → Phase → ℤ → Option String → Error → List Request → Type 0
StopsRecording obj q n message e xs =
    IsKube e × ((full : List Request) × Recorded AnyDate obj q n message full × Begins xs full)

pub recorded :
    (Date : Option ℤ → String → Type 0) (obj : MyResource) (q : Phase) (n : ℤ)
    (message : Option String) (generation : Option ℤ) (now : String)
    → Date generation now
    → Recorded Date obj q n message
        (recording obj q n generation now message ∷ read_resource obj ∷ [])
recorded Date obj q n message generation now date = record {
  generation = generation;
  now = now;
  date = date;
  order = refl;
}

-- The read was answered with an error.
abbrev pub IsRefused : Platform → MyResource → Type 0
IsRefused P obj =
    (w : P.World) × ((k : KubeError) × ((P.perform (read_deployment obj) w).0 ≡ err k))

module _ {P : Platform} (ctx : Context) (obj : MyResource) where
  ready_of-Reads : (d : Deployment) → Reads P (ok d) (ready_of d)
  ready_of-Reads d = elim (Option-cases d.status) [
    | inl nothing ↦
        let e : ready_of d ≡ pos 0 = rw nothing refl in
        subst (λ n. Reads P (ok d) n) (sym e) (blank d nothing)
    | inr (status, is) ↦ elim (Option-cases status.ready_replicas) [
      | inl free ↦
          let e : ready_of d ≡ pos 0 = rw (is, free) refl in
          subst (λ n. Reads P (ok d) n) (sym e) (unset d status is free)
      | inr (n, at) ↦
          let e : ready_of d ≡ n = rw (is, at) refl in
          subst (λ m. Reads P (ok d) m) (sym e) (reported d status n is at)
    ]
  ]

  count_sends :
      (r : Result Deployment KubeError)
      → Sends {P = P}
          (ready_count r)
          (λ n xs. (xs ≡ []) × Reads P r n)
          (λ e xs. (xs ≡ []) × IsKube e × ((k : KubeError) × (r ≡ err k)))
  count_sends (ok d) = Sends-pure _ _ _ (refl, ready_of-Reads d)
  count_sends (err (api s)) = elim (Bool-cases (P.status_not_found s)) [
    | inl gone ↦ rw gone (Sends-pure _ _ _ (refl, missing s gone))
    | inr there ↦ rw there (Sends-raise _ _ _ (refl, from_kube _ refl, (_, refl)))
  ]
  count_sends (err (service t)) = Sends-raise _ _ _ (refl, from_kube _ refl, (_, refl))
  count_sends (err (other t)) = Sends-raise _ _ _ (refl, from_kube _ refl, (_, refl))

  -- The read is sent whatever its answer is.
  pub check_asks :
      Sends {P = P}
        (check_ready_replicas obj (namespace_of obj))
        (λ n xs. (xs ≡ read_deployment obj ∷ []) × Counted P obj n)
        (λ e xs. (xs ≡ read_deployment obj ∷ []) × IsKube e × IsRefused P obj)
  unfolding check_ready_replicas
  check_asks =
      let q = read_deployment obj in
      Sends-bind (send q) ready_count
        (λ r xs. (xs ≡ q ∷ []) × ((w : P.World) × ((P.perform q w).0 ≡ r))) (λ e xs. ⊥) _ _
        (Sends-send q _ _ λ w. (refl, (w, refl)))
        (λ r xs (sent, (w, is)). rw sent (
          Sends-map (ready_count r) _ _ _ _ (count_sends r)
            (λ n ys h. (
              ap (λ (zs : List Request). zs ++ (q ∷ [])) (h.0),
              record { when = w; answer = subst (λ x. Reads P x n) (sym is) (h.1) },
            ))
            λ e ys h.
              (ap (λ (zs : List Request). zs ++ (q ∷ [])) (h.0), h.1, (w, (h.2.0, is ∙ h.2.1)))))
        λ e xs h. absurd h

  -- The rest of a block, after the ready count.
  pub check-then :
      {B : Type 0} (f : ℤ → Exec P B) (S : B → List Request → Type 0)
      (F : Error → List Request → Type 0)
      → ((e : Error) (ys : List Request) → Stops (read_deployment obj ∷ []) e ys → F e ys)
      → ((n : ℤ)
          → Counted P obj n
          → Sends
              (f n)
              (λ b ys. S b (ys ++ (read_deployment obj ∷ [])))
              (λ e ys. F e (ys ++ (read_deployment obj ∷ []))))
      → Sends (check_ready_replicas obj (namespace_of obj) >>= f) S F
  check-then f S F l k =
      Sends-bind _ f _ _ S F check_asks (λ n ys h. rw (h.0) (k n (h.1)))
        λ e ys h. l e ys (h.1, rw (h.0) (Begins-all (read_deployment obj ∷ [])))

  event_sends :
      (e : Event)
      → Tells {P = P}
          (do r ← send (publish ctx.reporter e obj); pure tt)
          (publish ctx.reporter e obj ∷ [])
  event_sends e =
      Tells-then (send (publish ctx.reporter e obj)) (publish ctx.reporter e obj ∷ [])
        (λ r. pure tt) _ _ (Tells-send (publish ctx.reporter e obj)) λ r. Sends-pure _ _ tt refl

  pub normal_sends :
      (reason action : String) (text : Option String)
      → Tells {P = P} (publish_normal_event ctx obj reason action text) (
          publish ctx.reporter
            (record { type = normal; reason = reason; note = text; action = action })
            obj
          ∷ [])
  unfolding publish_normal_event
  normal_sends reason action text = event_sends _

  pub warning_sends :
      (reason action : String) (text : Option String)
      → Tells {P = P} (publish_warning_event ctx obj reason action text) (
          publish ctx.reporter
            (record { type = warning; reason = reason; note = text; action = action })
            obj
          ∷ [])
  unfolding publish_warning_event
  warning_sends reason action text = event_sends _

  pub create_sends :
      Emits {P = P} (create_owned_resources obj (namespace_of obj)) (applications obj)
  unfolding create_owned_resources
  create_sends =
      let namespace = namespace_of obj in
      let name = obj.metadata.name_any in
      let maps = apply_configmap namespace name forced_params (generate_configmap obj) in
      let deploys = apply_deployment namespace name forced_params (generate_deployment obj) in
      let serves = apply_service namespace name forced_params (generate_service obj) in
      Emits-bind (call maps) (maps ∷ []) (λ _. call deploys >>= λ _. call serves)
        (serves ∷ deploys ∷ []) (Emits-call maps)
        λ _.
          Emits-bind (call deploys) (deploys ∷ []) (λ _. call serves) (serves ∷ [])
            (Emits-call deploys) λ _. Emits-call serves

  pub update_sends :
      (q : Phase) (n : ℤ) (message : Option String)
      → Sends {P = P}
          (update_status (namespace_of obj) obj.metadata.name_any q n message)
          (λ _ xs. Recorded (Dated P obj) obj q n message xs)
          (StopsRecording obj q n message)
  unfolding update_status
  update_sends q n message =
      let ask = read_resource obj in
      Sends-bind (call ask) _
        (λ a xs. (xs ≡ ask ∷ []) × ((w : P.World) × ((P.perform ask w).0 ≡ ok a)))
        (Stops (ask ∷ [])) _ _
        (Sends-call ask _ _ (λ w a is. (refl, (w, is)))
          λ k. (from_kube k refl, Begins-all (ask ∷ [])))
        (λ current xs (sent, (w, is)). rw sent (
          Sends-bind timestamp _ (λ now ys. (ys ≡ []) × ((v : P.World) × ((P.now v).0 ≡ now)))
            (λ e ys. ⊥) _ _ (Sends-timestamp _ _ λ v. (refl, (v, refl)))
            (λ now ys (silent, (v, at)). rw silent (
              let generation = current.metadata.generation in
              Sends-call (recording obj q n generation now message) _ _
                (λ _ _ _. recorded (Dated P obj) obj q n message generation now (record {
                  when = w;
                  current = current;
                  answer = is;
                  observed = refl;
                  at = v;
                  clock = at;
                }))
                λ k. (
                  from_kube k refl,
                  (_, recorded AnyDate obj q n message generation now tt, Begins-all _),
                )))
            λ e ys h. absurd h))
        λ e xs h. (
          h.0,
          (
            _,
            recorded AnyDate obj q n message none "" tt,
            Begins-later (recording obj q n none "" message ∷ []) xs _ (h.1),
          ),
        )
