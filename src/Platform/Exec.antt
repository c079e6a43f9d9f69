-- ===== src/Platform/Exec.antt =====
-- Actions of the controller: they change the world, the log of requests and the shared health
-- state, and return a result or an error. What was done before an error stays done.
use k8s_operator_template.Prelude.{String, Option, List, ◌∷◌}
use mathlib.Core.Option
use k8s_operator_template.Prelude.Result.{Result, ok, err}
use k8s_operator_template.Errors.{Error, kube, KubeError}
use k8s_operator_template.Health.{HealthState}
use k8s_operator_template.Platform.Requests.{Platform, Request, Answer}

-- The log holds the latest request first. Without a health state no metrics are recorded.
pub record State (P : Platform) : Type 0 where
  pub world : P.World
  pub log : List Request
  pub health : Option (HealthState P.prometheus)

abbrev pub Exec : Platform → Type 0 → Type 0
Exec P A = State P → Result A Error × State P

module _ {P : Platform} where
  abbrev pub pure : {A : Type 0} → A → Exec P A
  pure a s = (ok a, s)

  abbrev pub raise : {A : Type 0} → Error → Exec P A
  raise e s = (err e, s)

  abbrev pub continue : {A B : Type 0} → Result A Error → (A → Exec P B) → Exec P B
  continue (ok a) f s = f a s
  continue (err e) f s = (err e, s)

  infixl 5 ◌>>=◌ ◌>>◌
  unfoldable pub ◌>>=◌ : {A B : Type 0} → Exec P A → (A → Exec P B) → Exec P B
  ◌>>=◌ m f s = let (r, s') = m s in continue r f s'

  abbrev pub ◌>>◌ : {B : Type 0} → Exec P (Unit {0}) → Exec P B → Exec P B
  m >> n = m >>= λ _. n

  -- The outcome of an action as a value, for a `match` on it or an `unwrap_or`.
  unfoldable pub attempt : {A : Type 0} → Exec P A → Exec P (Result A Error)
  attempt m s = let (r, s') = m s in (ok r, s')

  -- A request, with kube's error as a value.
  unfoldable pub send : (q : Request) → Exec P (Result (Answer q) KubeError)
  send q s = let (r, w) = P.perform q s.world in (ok r, record s { world = w; log = q ∷ s.log })

  -- `?` on a kube error.
  abbrev pub lift_kube : {A : Type 0} → Result A KubeError → Exec P A
  lift_kube (ok a) s = (ok a, s)
  lift_kube (err e) s = (err (kube e), s)

  -- A request followed by `?`.
  unfoldable pub call : (q : Request) → Exec P (Answer q)
  unfolding send ◌>>=◌
  call q = do r ← send q; lift_kube r

  unfoldable pub timestamp : Exec P String
  timestamp s = let (t, w) = P.now s.world in (ok t, record s { world = w })

  unfoldable pub start_timer : Exec P P.Instant
  start_timer s = let (t, w) = P.start_timer s.world in (ok t, record s { world = w })

  unfoldable pub elapsed : P.Instant → Exec P P.prometheus.Seconds
  elapsed t s = let (d, w) = P.elapsed t s.world in (ok d, record s { world = w })

  -- `if let Some(ref health_state) = ctx.health_state { … }`
  unfoldable pub with_health :
      (HealthState P.prometheus → HealthState P.prometheus) → Exec P (Unit {0})
  with_health f s = (ok tt, record s { health = Option.map f s.health })
