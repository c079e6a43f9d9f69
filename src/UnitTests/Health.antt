-- ===== src/UnitTests/Health.antt =====
-- The test of src/health.rs that does not read the encoded metrics, whose text a library makes.
use k8s_operator_template.Prelude.{Bool, true, not, ◌≡◌, refl, ◌&&◌}
use k8s_operator_template.Health.{Prometheus, new_health, set_ready, is_ready}

abbrev test_health_state : Prometheus → Bool
test_health_state p =
    let state = new_health p in not (is_ready p state) && is_ready p (set_ready p true state)

test_passes : (p : Prometheus) → test_health_state p ≡ true
unfolding new_health set_ready is_ready
test_passes p = refl
