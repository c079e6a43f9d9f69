-- ===== src/Reconciler/Script/Plan.antt =====
-- A reference for the visits of src/controller/reconciler.rs to a live resource: which requests
-- they send, and in what order. Lists have the latest request first, as the log has.
use k8s_operator_template.Prelude.{
  ℤ, pos, String, true, ◌≡◌, Option, none, some, List, [], ◌∷◌, ◌++◌, if◌then◌else◌,
}
use mathlib.Core.Option
use k8s_operator_template.Crd.{
  MyResource, Phase, pending, creating, running, updating, degraded, failed, deleting,
}
use k8s_operator_template.Errors.{Error, KubeError, ErrorStatus, api, display}
use k8s_operator_template.Resources.Types.{Deployment, DeploymentStatus}
use k8s_operator_template.Resources.Generate.{
  generate_configmap, generate_deployment, generate_service,
}
use k8s_operator_template.Platform.Requests.{
  Platform, Request, Event, EventType, normal, warning, get_resource, patch_status, get_deployment,
  apply_configmap, apply_deployment, apply_service, publish,
}
use k8s_operator_template.Platform.Exec.{State}
use k8s_operator_template.Platform.Events.{Context}
use k8s_operator_template.Platform.Emits.{IsKube, Begins}
use k8s_operator_template.Prelude.Result.{Result, ok, err}
use k8s_operator_template.Reconciler.Actions.{
  apply_params, forced_params, phase_conditions, validate_spec, Action, requeue,
}
use k8s_operator_template.Reconciler.Loop.{
  namespace_of, phase_of, spec_changed, requeue_duration, visited,
}
use k8s_operator_template.Reconciler.Steady.Phases.{decide}

abbrev pub read_resource : MyResource → Request
read_resource obj = get_resource (namespace_of obj) obj.metadata.name_any

abbrev pub read_deployment : MyResource → Request
read_deployment obj = get_deployment (namespace_of obj) obj.metadata.name_any

-- The ConfigMap first, then the Deployment, then the Service.
abbrev pub applications : MyResource → List Request
applications obj =
    let ns = namespace_of obj in
    let name = obj.metadata.name_any in
    apply_service ns name forced_params (generate_service obj)
    ∷ apply_deployment ns name forced_params (generate_deployment obj)
    ∷ apply_configmap ns name forced_params (generate_configmap obj)
    ∷ []

-- What is sent before the phase is decided.
abbrev pub groundwork : MyResource → Phase → List Request
groundwork obj pending = []
groundwork obj creating = read_deployment obj ∷ applications obj
groundwork obj running = if spec_changed obj then [] else read_deployment obj ∷ applications obj
groundwork obj updating = read_deployment obj ∷ applications obj
groundwork obj degraded = read_deployment obj ∷ []
groundwork obj failed = []
groundwork obj deleting = []

-- The type and the reason of the event that a change of phase is told with.
abbrev pub notice : Phase → Phase → Option (EventType × String)
notice pending creating = some (normal, "Creating")
notice creating running = some (normal, "Ready")
notice running updating = some (normal, "SpecChanged")
notice running degraded = some (warning, "Degraded")
notice updating running = some (normal, "Updated")
notice degraded running = some (normal, "Recovered")
notice degraded failed = some (warning, "Failed")
notice _ _ = none

pub data Announces (ctx : Context) (obj : MyResource) (p q : Phase) (xs : List Request)
    : Type 0 where
  silent : notice p q ≡ none → xs ≡ [] → Announces ctx obj p q xs
  tells :
      (event : Event)
      → notice p q ≡ some (event.type, event.reason)
      → xs ≡ publish ctx.reporter event obj ∷ []
      → Announces ctx obj p q xs

-- What an answer to a read of a deployment says of the number of its ready replicas.
pub data Reads (P : Platform) : Result Deployment KubeError → ℤ → Type 0 where
  reported :
      (d : Deployment) (status : DeploymentStatus) (n : ℤ)
      → d.status ≡ some status
      → status.ready_replicas ≡ some n
      → Reads P (ok d) n
  unset :
      (d : Deployment) (status : DeploymentStatus)
      → d.status ≡ some status
      → status.ready_replicas ≡ none
      → Reads P (ok d) (pos 0)
  blank : (d : Deployment) → d.status ≡ none → Reads P (ok d) (pos 0)
  missing : (s : ErrorStatus) → P.status_not_found s ≡ true → Reads P (err (api s)) (pos 0)

-- `n` is what an answer of the platform to the read of the deployment says.
pub record Counted (P : Platform) (obj : MyResource) (n : ℤ) : Type 0 where
  pub when : P.World
  pub answer : Reads P (P.perform (read_deployment obj) when).0 n

-- The same of a phase that is decided; one without groundwork needs no count.
pub data Known (P : Platform) (obj : MyResource) (p : Phase) (n : ℤ) : Type 0 where
  unread : groundwork obj p ≡ [] → Known P obj p n
  read : Counted P obj n → Known P obj p n

-- The same of the last read of a visit, where an error counts as no ready replica.
pub data Polled (P : Platform) (obj : MyResource) (n : ℤ) : Type 0 where
  answered : Counted P obj n → Polled P obj n
  refused :
      (when : P.World) (k : KubeError)
      → (P.perform (read_deployment obj) when).0 ≡ err k
      → n ≡ pos 0
      → Polled P obj n

-- The generation is that of an answer to the read of the resource, and the time is the clock's.
pub record Dated (P : Platform) (obj : MyResource) (generation : Option ℤ) (now : String)
    : Type 0 where
  pub when : P.World
  pub current : MyResource
  pub answer : (P.perform (read_resource obj) when).0 ≡ ok current
  pub observed : generation ≡ current.metadata.generation
  pub at : P.World
  pub clock : (P.now at).0 ≡ now

-- No condition on a count, or on a generation and a time.
abbrev pub AnyCount : ℤ → Type 0
AnyCount n = Unit

abbrev pub AnyDate : Option ℤ → String → Type 0
AnyDate generation now = Unit

-- The requests until the phase `q` is decided, by a number of ready replicas as `Count` says.
pub record Decided (Count : ℤ → Type 0) (ctx : Context) (obj : MyResource) (p q : Phase)
    (xs : List Request) : Type 0 where
  pub ready : ℤ
  pub count : Count ready
  pub decision : q ≡ decide obj ready p
  pub events : List Request
  pub announced : Announces ctx obj p q events
  pub order : xs ≡ events ++ groundwork obj p

-- The request that records a phase, for a generation and a time.
abbrev pub recording : MyResource → Phase → ℤ → Option ℤ → String → Option String → Request
recording obj q n generation now message =
    patch_status (namespace_of obj) obj.metadata.name_any apply_params (record {
      phase = q;
      ready_replicas = n;
      observed_generation = generation;
      conditions = phase_conditions now q message generation;
    })

-- A read of the resource and the patch, with a generation and a time as `Date` says.
pub record Recorded (Date : Option ℤ → String → Type 0) (obj : MyResource) (q : Phase) (n : ℤ)
    (message : Option String) (xs : List Request) : Type 0 where
  pub generation : Option ℤ
  pub now : String
  pub date : Date generation now
  pub order : xs ≡ recording obj q n generation now message ∷ read_resource obj ∷ []

-- The requests that a visit that succeeds may send, whatever the answers are.
pub record Planned (ctx : Context) (obj : MyResource) (xs : List Request) : Type 0 where
  pub phase : Phase
  pub decided : List Request
  pub decides : Decided AnyCount ctx obj (phase_of obj.status) phase decided
  pub counted : ℤ
  pub written : List Request
  pub records : Recorded AnyDate obj phase counted none written
  pub order : xs ≡ written ++ (read_deployment obj ∷ decided)

-- The requests of a visit that refuses the spec of a pending resource with the error `e`, which an
-- event tells and the status records.
pub record Refused (Date : Option ℤ → String → Type 0) (show_kube : KubeError → String)
    (ctx : Context) (obj : MyResource) (e : Error) (xs : List Request) : Type 0 where
  pub starts : phase_of obj.status ≡ pending
  pub invalid : validate_spec obj ≡ err e
  pub event : Event
  pub type : event.type ≡ warning
  pub reason : event.reason ≡ "ValidationFailed"
  pub note : event.note ≡ some (display show_kube e)
  pub written : List Request
  pub records : Recorded Date obj failed (pos 0) (some (display show_kube e)) written
  pub order : xs ≡ written ++ (publish ctx.reporter event obj ∷ [])

-- The errors of a visit, with the requests by then: kube's for some request, where only the first
-- requests of a plan were sent, or the refusal of the spec.
pub data Breaks (P : Platform) (ctx : Context) (obj : MyResource) (e : Error) (xs : List Request)
    : Type 0 where
  at_work :
      IsKube e
      → (plan : List Request) → Planned ctx obj plan
      → Begins xs plan
      → Breaks P ctx obj e xs
  at_refusal :
      IsKube e
      → (cause : Error) (plan : List Request) → Refused AnyDate P.show_kube ctx obj cause plan
      → Begins xs plan
      → Breaks P ctx obj e xs
  of_spec : Refused (Dated P obj) P.show_kube ctx obj e xs → Breaks P ctx obj e xs

module _ {P : Platform} (ctx : Context) (obj : MyResource) where
  -- A visit that succeeds: the requests until the phase is decided, a read of the deployment, the
  -- status, and the metrics.
  pub record Follows (s : State P) (a : Action) (t : State P) : Type 0 where
    pub phase : Phase
    pub decided : List Request
    pub decides :
        Decided (Known P obj (phase_of obj.status)) ctx obj (phase_of obj.status) phase decided
    pub counted : ℤ
    pub count : Polled P obj counted
    pub written : List Request
    pub records : Recorded (Dated P obj) obj phase counted none written
    pub log : t.log ≡ written ++ (read_deployment obj ∷ (decided ++ s.log))
    pub action : a ≡ requeue (requeue_duration phase)
    pub duration : P.prometheus.Seconds
    pub metrics : t.health ≡ Option.map (visited P.prometheus obj duration counted) s.health

  -- A visit that fails.
  pub record Fails (s : State P) (e : Error) (t : State P) : Type 0 where
    pub sent : List Request
    pub log : t.log ≡ sent ++ s.log
    pub cause : Breaks P ctx obj e sent
    pub metrics : t.health ≡ s.health
