-- ===== src/Cluster/Lives.antt =====
-- The life of a resource as a user sees it, beside the cluster of `System`.
use k8s_operator_template.Prelude.{
  String, Bool, true, false, ◌≡◌, refl, ◌∙◌, ap, subst, ◌⊎◌, inl, inr, Option, none, some, is_some,
  List,
}
use k8s_operator_template.Crd.{MyResource, MyResourceStatus, ObjectMeta, Phase, pending, creating}
use k8s_operator_template.StateMachine.Event.{ResourceEvent}
use k8s_operator_template.StateMachine.Graph.{Edge}
use k8s_operator_template.Validation.Bounds.{InBounds}
use k8s_operator_template.Webhooks.Policies.Decision.{validate_all_iff}
use k8s_operator_template.Platform.Requests.{Platform}
use k8s_operator_template.Platform.Exec.{State, with_health}
use k8s_operator_template.Platform.Events.{Context}
use k8s_operator_template.Reconciler.Loop.{has_finalizer, phase_of, error_policy}
use k8s_operator_template.Reconciler.Moves.{Moves}
use k8s_operator_template.Reconciler.Machine.{Moves-Edge}
use k8s_operator_template.Cluster.Store.{IsStore}
use k8s_operator_template.Cluster.Visit.{
  Claims, claimed, Records, moved, Leaves, removed, kept, visit-Leaves, visit-keeps_other,
}
use k8s_operator_template.Cluster.System.{
  Step, visit, visit_other, answer_error, creation, edit, deletion, elsewhere, Reach, here, next,
  Edits,
}

-- A resource as a user sees it: its phase, and whether it is being deleted.
pub data View : Type 0 where
  absent : View
  present : Phase → Bool → View

abbrev pub view_of : MyResource → View
view_of o = present (phase_of o.status) (is_some o.metadata.deletion_timestamp)

abbrev pub view : Option MyResource → View
view none = absent
view (some o) = view_of o

pub data Actor : Type 0 where
  operator : Actor
  others : Actor

-- The steps of its life, by who takes them. The operator changes the phase, along the edges of the
-- life cycle, only while the resource is not being deleted, and from Pending only to Creating; and
-- it lets a deleted resource vanish. Others create the resource and mark it for deletion.
pub data Life : Actor → View → View → Type 0 where
  stay : {a : Actor} {v : View} → Life a v v
  appear : Life others absent (present pending false)
  move :
      {p q : Phase} (e : ResourceEvent)
      → Edge p e q
      → (p ≡ pending → q ≡ creating)
      → Life operator (present p false) (present q false)
  mark : {p : Phase} {b : Bool} → Life others (present p b) (present p true)
  vanish : {p : Phase} → Life operator (present p true) absent

module _ {P : Platform} (ctx : Context) (namespace name : String)
    (stored : P.World → Option MyResource) where
  abbrev actor_of : {s t : State P} → Step ctx namespace name stored s t → Actor
  actor_of (visit obj at) = operator
  actor_of (visit_other obj apart) = operator
  actor_of (answer_error obj e) = operator
  actor_of (creation w o before after new) = others
  actor_of (edit w o o' before after edits) = others
  actor_of (deletion w o time before after) = others
  actor_of (elsewhere w same) = others

  -- Every step of a history is a step of the resource's life by the one who takes it.
  abbrev pub Lives : {s t : State P} → Reach ctx namespace name stored s t → Type 0
  Lives here = Unit
  Lives (next {t} {u} r step) =
      Lives r × Life (actor_of step) (view (stored t.world)) (view (stored u.world))

-- The replica count is within the bounds, and a status is there only on a resource that the
-- operator has claimed or that is being deleted.
pub record IsSound (o : MyResource) : Type 0 where
  pub bounded : InBounds o.spec.replicas
  pub tracked :
      (o.status ≡ none)
      ⊎ (has_finalizer o.metadata.finalizers ≡ true)
      ⊎ (is_some o.metadata.deletion_timestamp ≡ true)

abbrev pub Sound : Option MyResource → Type 0
Sound none = Unit
Sound (some o) = IsSound o

Claims-keeps :
    (obj : MyResource) (fs : List String)
    → Claims obj fs
    → has_finalizer obj.metadata.finalizers ≡ true
    → has_finalizer fs ≡ true
Claims-keeps obj fs (Claims.same e) h = rw e h
Claims-keeps obj fs (claimed a foreign e) h = cc

tracked_after :
    (obj : MyResource) (fs : List String) (status : Option MyResourceStatus)
    → IsSound obj
    → Claims obj fs
    → Records obj status
    → (status ≡ none) ⊎ (has_finalizer fs ≡ true) ⊎ (is_some obj.metadata.deletion_timestamp ≡ true)
tracked_after obj fs status sound c (Records.same e) = elim sound.tracked [
  | inl blank ↦ inl (e ∙ blank)
  | inr (inl mine) ↦ inr (inl (Claims-keeps obj fs c mine))
  | inr (inr gone) ↦ inr (inr gone)
]
tracked_after obj fs status sound c (moved alive st e moves) =
    inr (inl (Claims-keeps obj fs c alive.claimed))

-- What a visit leaves of a sound resource is sound.
Leaves-Sound : (obj : MyResource) (o : Option MyResource) → IsSound obj → Leaves obj o → Sound o
Leaves-Sound obj o sound (removed gone e) = rw e tt
Leaves-Sound obj o sound (kept fs status e c r) =
    rw e (record { bounded = sound.bounded; tracked = tracked_after obj fs status sound c r })

only_creating :
    (obj : MyResource) (p q : Phase)
    → InBounds obj.spec.replicas
    → Moves obj p q
    → p ≡ pending
    → q ≡ creating
only_creating obj p q fits (Moves.accepted h) at = refl
only_creating obj p q fits (Moves.refused bad) at = absurd (bad fits)
only_creating obj p q fits _ at = cc

Moves-Life :
    (obj : MyResource) (p q : Phase)
    → InBounds obj.spec.replicas
    → Moves obj p q
    → Life operator (present p false) (present q false)
Moves-Life obj p q fits moves = elim (Moves-Edge obj p q moves) [
  | inl same ↦ rw same stay
  | inr (e, edge) ↦ move e edge (only_creating obj p q fits moves)
]

Leaves-Life :
    (obj : MyResource) (o : Option MyResource)
    → IsSound obj
    → Leaves obj o
    → Life operator (view_of obj) (view o)
Leaves-Life obj o sound (removed gone e) = rw (e, gone) vanish
Leaves-Life obj o sound (kept fs status e c (Records.same same)) = rw (e, same) stay
Leaves-Life obj o sound (kept fs status e c (moved alive st written moves)) =
    rw (e, written, alive.kept) (Moves-Life obj _ _ sound.bounded moves)

edited_tracked :
    (o o' : MyResource)
    → Edits o o'
    → IsSound o
    → (o'.status ≡ none)
      ⊎ (has_finalizer o'.metadata.finalizers ≡ true)
      ⊎ (is_some o'.metadata.deletion_timestamp ≡ true)
edited_tracked o o' edits sound = elim sound.tracked [
  | inl blank ↦ inl (edits.status ∙ blank)
  | inr (inl mine) ↦
      inr (inl (ap (λ (m : ObjectMeta). has_finalizer m.finalizers) edits.metadata ∙ mine))
  | inr (inr gone) ↦
      inr (inr (ap (λ (m : ObjectMeta). is_some m.deletion_timestamp) edits.metadata ∙ gone))
]

edited_view : (o o' : MyResource) → Edits o o' → view_of o ≡ view_of o'
edited_view o o' edits =
    cc (
      ap phase_of edits.status,
      ap (λ (m : ObjectMeta). is_some m.deletion_timestamp) edits.metadata,
    )

module _ {P : Platform} (namespace name : String) (stored : P.World → Option MyResource)
    (store : IsStore P namespace name stored) (ctx : Context) where
  Step-Sound :
      {s t : State P}
      → Step ctx namespace name stored s t
      → Sound (stored s.world)
      → Sound (stored t.world)
  unfolding error_policy with_health
  Step-Sound {s} (visit obj at) h =
      Leaves-Sound obj _ (rw at at h) (visit-Leaves namespace name stored ctx obj s store at)
  Step-Sound {s} (visit_other obj apart) h =
      rw (visit-keeps_other namespace name stored store obj apart ctx s) h
  Step-Sound (answer_error obj e) h = h
  Step-Sound (creation w o before after new) h =
      rw after (record { bounded = (validate_all_iff _).0 new.admitted; tracked = inl new.blank })
  Step-Sound (edit w o o' before after edits) h = rw after (record {
    bounded = (validate_all_iff _).0 edits.admitted;
    tracked = edited_tracked o o' edits (rw before at h);
  })
  Step-Sound (deletion w o time before after) h =
      let sound : IsSound o = rw before at h in
      rw after (record { bounded = sound.bounded; tracked = inr (inr refl) })
  Step-Sound (elsewhere w same) h = rw same h

  Step-Life :
      {s t : State P} (step : Step ctx namespace name stored s t)
      → Sound (stored s.world)
      → Life
          (actor_of ctx namespace name stored step)
          (view (stored s.world))
          (view (stored t.world))
  unfolding error_policy with_health
  Step-Life {s} (visit obj at) h =
      rw at (Leaves-Life obj _ (rw at at h) (visit-Leaves namespace name stored ctx obj s store at))
  Step-Life {s} (visit_other obj apart) h =
      rw (visit-keeps_other namespace name stored store obj apart ctx s) stay
  Step-Life (answer_error obj e) h = stay
  Step-Life (creation w o before after new) h = rw (before, after, new.blank, new.unmarked) appear
  Step-Life (edit w o o' before after edits) h =
      rw (before, after) (subst (λ v. Life others (view_of o) v) (edited_view o o' edits) stay)
  Step-Life (deletion w o time before after) h = rw (before, after) mark
  Step-Life (elsewhere w same) h = rw same stay

  -- In a cluster whose API server behaves as documented, whose creations and edits pass the
  -- admission policies, and in which any request may fail: after any history, from a sound state,
  -- of visits to the resource and to others, answers to errors, creations, edits, deletions and
  -- changes elsewhere, the resource is sound (its replica count within the bounds, and a status
  -- only where it is claimed or deleted). In each step of the history the operator leaves the phase
  -- as it is or changes it along an edge of the state machine's life cycle, from Pending only to
  -- Creating and never once the resource is deleted; it removes the resource only when it is
  -- deleted; and it neither creates a resource nor marks one for deletion.
  pub Reach-Lives :
      {s t : State P}
      → Sound (stored s.world)
      → (history : Reach ctx namespace name stored s t)
      → Sound (stored t.world) × Lives ctx namespace name stored history
  Reach-Lives h here = (h, tt)
  Reach-Lives h (next r step) =
      let (sound, lives) = Reach-Lives h r in (Step-Sound step sound, (lives, Step-Life step sound))
