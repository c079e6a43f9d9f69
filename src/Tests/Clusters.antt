-- ===== src/Tests/Clusters.antt =====
-- The theorems on a cluster and on visits from the creation of a resource on, at concrete inputs:
-- an API server that stores one resource, and visits of src/controller/reconciler.rs to it.
use k8s_operator_template.Prelude.{pos, ◌≡◌, refl, none, some, [], ◌∷◌, str_eq_iff}
use k8s_operator_template.Errors.{from_secs}
use k8s_operator_template.Crd.{MyResource, pending, creating, running}
use k8s_operator_template.Webhooks.Policies.Decision.{validate_all_iff}
use k8s_operator_template.Platform.Requests.{Platform}
use k8s_operator_template.Platform.Exec.{State}
use k8s_operator_template.Reconciler.Actions.{requeue}
use k8s_operator_template.Reconciler.Moves.{IsLive}
use k8s_operator_template.Reconciler.Loop.{namespace_of, has_finalizer, reconcile}
use k8s_operator_template.Reconciler.Settles.{Leads}
use k8s_operator_template.Reconciler.Settles.Creation.{creation-settles}
use k8s_operator_template.Reconciler.Stale.{
  Misses, reconcile-Misses, Regresses, reconcile-Regresses,
}
use k8s_operator_template.Reconciler.Steady.Phases.{decide}
use k8s_operator_template.Cluster.Visit.{Leaves, visit-Leaves, visit-keeps_other}
use k8s_operator_template.Cluster.System.{Reach, here, next, visit, creation, IsAdmitted, at_world}
use k8s_operator_template.Cluster.Lives.{Lives, Sound, Reach-Lives}
use k8s_operator_template.Tests.Sample.{fresh, unclaimed, in_phase}
use k8s_operator_template.Tests.Visits.{three_fits, not_claimed}
use k8s_operator_template.Tests.Platforms.{
  calm, calm_with, calm_with-IsSteady, calm-IsSteady, controller, start_state, deployment_with,
}
use k8s_operator_template.Tests.Server.{stored_demo, server, server-IsStore}

abbrev empty_cluster : State server
empty_cluster = record { world = none; log = []; health = none }

-- The cluster after the creation of a resource that nobody has claimed.
abbrev created_cluster : State server
created_cluster = at_world empty_cluster (some unclaimed)

-- A resource of another name, in the same namespace.
abbrev neighbour : MyResource
neighbour = record (fresh (pos 3)) {
  metadata = record (fresh (pos 3)).metadata { name_any = "neighbour" };
}

neighbour_apart : ¬ ((namespace_of neighbour ≡ "apps") × (neighbour.metadata.name_any ≡ "demo"))
neighbour_apart h = cc ((str_eq_iff "neighbour" "demo").1 (h.1))

visit-keeps_other_example :
    stored_demo (reconcile controller neighbour created_cluster).1.world
    ≡ stored_demo created_cluster.world
visit-keeps_other_example =
    visit-keeps_other {P = server} "apps" "demo" stored_demo server-IsStore neighbour
      neighbour_apart controller created_cluster

visit-Leaves_example :
    Leaves unclaimed (stored_demo (reconcile controller unclaimed created_cluster).1.world)
visit-Leaves_example =
    visit-Leaves {P = server} "apps" "demo" stored_demo controller unclaimed created_cluster
      server-IsStore refl

-- The visit sees a deleted resource, in whose place a new one of the same name is stored.
unclaimed-IsAdmitted : IsAdmitted none unclaimed
unclaimed-IsAdmitted = (validate_all_iff _).1 three_fits

created_and_visited :
    Reach {P = server} controller "apps" "demo" stored_demo empty_cluster
      (reconcile controller unclaimed created_cluster).1
created_and_visited =
    next
      (next here (
        creation (some unclaimed) unclaimed refl refl
          (record { unmarked = refl; blank = refl; admitted = unclaimed-IsAdmitted })))
      (visit unclaimed refl)

Reach-Lives_example :
    Sound (stored_demo (reconcile controller unclaimed created_cluster).1.world)
    × Lives controller "apps" "demo" stored_demo created_and_visited
Reach-Lives_example =
    Reach-Lives {P = server} "apps" "demo" stored_demo server-IsStore controller tt
      created_and_visited

creation-settles_example :
    Leads {P = calm (pos 3)} controller unclaimed
      (start_state (pos 3))
      (requeue (from_secs 1) ∷ requeue (from_secs 10) ∷ requeue (from_secs 60) ∷ [])
      running
creation-settles_example =
    creation-settles {P = calm (pos 3)} controller (fresh (pos 3)) (deployment_with (pos 3))
      unclaimed (start_state (pos 3)) (calm-IsSteady (pos 3) unclaimed) (λ w. refl) refl not_claimed
      refl refl three_fits refl

-- The stored object has a newer generation than the resource of the visit.
abbrev earlier : MyResource
earlier = record (fresh (pos 3)) {
  metadata = record (fresh (pos 3)).metadata { generation = some (pos 1) };
}

earlier-IsLive : IsLive earlier
unfolding has_finalizer
earlier-IsLive = record { kept = refl; claimed = refl }

reconcile-Misses_example :
    Misses {P = calm (pos 3)} controller earlier
      (fresh (pos 3))
      (start_state (pos 3))
      (decide earlier (pos 3) pending)
reconcile-Misses_example =
    reconcile-Misses {P = calm (pos 3)} controller earlier (fresh (pos 3)) (deployment_with (pos 3))
      (calm-IsSteady (pos 3) earlier) (start_state (pos 3)) earlier-IsLive (λ _. three_fits)

creating-IsLive : IsLive (in_phase creating)
unfolding has_finalizer
creating-IsLive = record { kept = refl; claimed = refl }

-- The stored resource is in Running, and one of its replicas is not ready.
abbrev ahead : Platform
ahead = calm_with (in_phase running) (pos 2)

abbrev ahead_state : State ahead
ahead_state = record { world = 0; log = []; health = none }

reconcile-Regresses_example :
    Regresses {P = ahead} controller (in_phase creating) (in_phase running) ahead_state creating
reconcile-Regresses_example =
    reconcile-Regresses {P = ahead} controller (in_phase creating) (in_phase running)
      (deployment_with (pos 2)) (calm_with-IsSteady (in_phase running) (pos 2) (in_phase creating))
      ahead_state creating-IsLive refl refl refl
