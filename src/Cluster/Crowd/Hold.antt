-- ===== src/Cluster/Crowd/Hold.antt =====
-- The finalizer of src/controller/reconciler.rs while others act: what must happen before a
-- resource that has it is gone.
use k8s_operator_template.Prelude.{
  String, true, ◌≡◌, ◌⊎◌, Option, none, some, is_some, List, ◌∷◌, ◌++◌,
}
use k8s_operator_template.Prelude.Json.{null}
use k8s_operator_template.Crd.{MyResource}
use k8s_operator_template.Platform.Requests.{Platform, PatchParams, Request, merge_patch}
use k8s_operator_template.Platform.Exec.{State}
use k8s_operator_template.Platform.Events.{Context}
use k8s_operator_template.Reconciler.Actions.{finalizers_patch}
use k8s_operator_template.Reconciler.Loop.{has_finalizer}
use k8s_operator_template.Reconciler.Moves.{IsOwn}
use k8s_operator_template.Cluster.Crowd.{IsShared}

-- The stored resource has the finalizer.
abbrev pub IsHeld : Option MyResource → Type 0
IsHeld none = ⊥
IsHeld (some o) = has_finalizer o.metadata.finalizers ≡ true

-- The patch that clears the finalizers of `name` in `namespace`, sent in a visit to an object of
-- that name that is being deleted.
pub record Releases (namespace name : String) (q : Request) : Type 0 where
  pub object : MyResource
  pub own : IsOwn object namespace name
  pub deleted : is_some object.metadata.deletion_timestamp ≡ true
  pub params : PatchParams
  pub request : q ≡ merge_patch namespace name params (finalizers_patch null)

pub data Released (namespace name : String) : List Request → Type 0 where
  now :
      {q : Request} {qs : List Request}
      → Releases namespace name q
      → Released namespace name (q ∷ qs)
  before :
      {q : Request} {qs : List Request}
      → Released namespace name qs
      → Released namespace name (q ∷ qs)

-- What was sent since `log`, and what is stored then.
pub record Holds (namespace name : String) (log : List Request) (stored : Option MyResource)
    (later : List Request) : Type 0 where
  pub sent : List Request
  pub order : later ≡ sent ++ log
  pub state : IsHeld stored ⊎ Released namespace name sent

module _ {P : Platform} (namespace name : String) (stored : P.World → Option MyResource)
    (shared : IsShared P namespace name stored) (ctx : Context) where
  abbrev HoldsSince : List Request → State P → Type 0
  HoldsSince log s = Holds namespace name log (stored s.world) s.log
