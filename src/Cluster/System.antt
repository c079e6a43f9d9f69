-- ===== src/Cluster/System.antt =====
-- The steps of a cluster around one resource: visits of the controller, its answers to errors, and
-- what users and the rest of the cluster do between them. Creations and edits pass the policies of
-- src/webhooks.
use k8s_operator_template.Prelude.{String, true, false, ◌≡◌, Option, none, some, is_some}
use k8s_operator_template.Crd.{MyResource}
use k8s_operator_template.Errors.{Error}
use k8s_operator_template.Webhooks.Policies.{validate_all}
use k8s_operator_template.Platform.Requests.{Platform}
use k8s_operator_template.Platform.Exec.{State}
use k8s_operator_template.Platform.Events.{Context}
use k8s_operator_template.Reconciler.Loop.{namespace_of, reconcile, error_policy}

-- The webhook admits `new`, in place of `old` if there is one.
abbrev pub IsAdmitted : Option MyResource → MyResource → Type 0
IsAdmitted old new =
    (validate_all (record {
      resource = new;
      old_resource = old;
      dry_run = false;
      namespace = some (namespace_of new);
    })).allowed
    ≡ true

-- A user changes the spec: the API server sets the generation and keeps the rest.
pub record Edits (old new : MyResource) : Type 0 where
  pub metadata : new.metadata ≡ record old.metadata { generation = new.metadata.generation }
  pub status : new.status ≡ old.status
  pub admitted : IsAdmitted (some old) new

-- A resource as a user creates it.
pub record IsNew (o : MyResource) : Type 0 where
  pub unmarked : is_some o.metadata.deletion_timestamp ≡ false
  pub blank : o.status ≡ none
  pub admitted : IsAdmitted none o

abbrev pub marked : MyResource → String → MyResource
marked o time = record o { metadata = record o.metadata { deletion_timestamp = some time } }

abbrev pub at_world : {P : Platform} → State P → P.World → State P
at_world s w = record s { world = w }

-- One step around the resource `name` in `namespace`, by who takes it. A visit sees the resource as
-- it is stored; a visit to another resource may see that one in any state.
pub data Step {P : Platform} (ctx : Context) (namespace name : String)
    (stored : P.World → Option MyResource) : State P → State P → Type 0 where
  visit :
      {s : State P} (obj : MyResource)
      → stored s.world ≡ some obj
      → Step ctx namespace name stored s (reconcile ctx obj s).1
  visit_other :
      {s : State P} (obj : MyResource)
      → ¬ ((namespace_of obj ≡ namespace) × (obj.metadata.name_any ≡ name))
      → Step ctx namespace name stored s (reconcile ctx obj s).1
  answer_error :
      {s : State P} (obj : MyResource) (e : Error)
      → Step ctx namespace name stored s (error_policy ctx obj e s).1
  creation :
      {s : State P} (w : P.World) (o : MyResource)
      → stored s.world ≡ none
      → stored w ≡ some o
      → IsNew o
      → Step ctx namespace name stored s (at_world s w)
  edit :
      {s : State P} (w : P.World) (o o' : MyResource)
      → stored s.world ≡ some o
      → stored w ≡ some o'
      → Edits o o'
      → Step ctx namespace name stored s (at_world s w)
  deletion :
      {s : State P} (w : P.World) (o : MyResource) (time : String)
      → stored s.world ≡ some o
      → stored w ≡ some (marked o time)
      → Step ctx namespace name stored s (at_world s w)
  elsewhere :
      {s : State P} (w : P.World)
      → stored w ≡ stored s.world
      → Step ctx namespace name stored s (at_world s w)

pub data Reach {P : Platform} (ctx : Context) (namespace name : String)
    (stored : P.World → Option MyResource) : State P → State P → Type 0 where
  here : {s : State P} → Reach ctx namespace name stored s s
  next :
      {s t u : State P}
      → Reach ctx namespace name stored s t
      → Step ctx namespace name stored t u
      → Reach ctx namespace name stored s u
