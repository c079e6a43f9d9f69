-- ===== src/Platform/Contracts.antt =====
-- What an action keeps and what it returns, with a rule for each way to build one.
use k8s_operator_template.Prelude.{List, [], ◌∷◌}
use mathlib.Core.Option
use k8s_operator_template.Prelude.Result.{Result, ok, err}
use k8s_operator_template.Errors.{Error, KubeError}
use k8s_operator_template.Health.{HealthState}
use k8s_operator_template.Platform.Requests.{Platform, Request}
use k8s_operator_template.Platform.Exec.{
  State, Exec, pure, raise, continue, ◌>>=◌, attempt, send, lift_kube, call, timestamp, start_timer,
  elapsed, with_health,
}

abbrev pub All : (Request → Type 0) → List Request → Type 0
All Q [] = Unit
All Q (q ∷ qs) = Q q × All Q qs

abbrev pub Returns : {A : Type 0} → (A → Type 0) → Result A Error → Type 0
Returns R (ok a) = R a
Returns R (err e) = Unit

-- The action `m` keeps the invariant `I`, and its result, if it has one, satisfies `R`.
pub record Does {P : Platform} {A : Type 0} (I : State P → Type 0) (R : A → Type 0) (m : Exec P A)
    : Type 0 where
  pub at : (s : State P) → I s → I (m s).1 × Returns R (m s).0

-- The state after a request.
abbrev pub sent : {P : Platform} → Request → State P → State P
sent {P} q s = record s { world = (P.perform q s.world).1; log = q ∷ s.log }

-- The invariant `I` is kept by the requests that satisfy `Q`, whatever they are answered, and by
-- the clock and the metrics.
pub record Keeps {P : Platform} (Q : Request → Type 0) (I : State P → Type 0) : Type 0 where
  pub on_send : (q : Request) (s : State P) → Q q → I s → I (sent q s)
  pub on_now : (s : State P) → I s → I (record s { world = (P.now s.world).1 })
  pub on_start_timer : (s : State P) → I s → I (record s { world = (P.start_timer s.world).1 })
  pub on_elapsed :
      (t : P.Instant) (s : State P) → I s → I (record s { world = (P.elapsed t s.world).1 })
  pub on_health :
      (f : HealthState P.prometheus → HealthState P.prometheus) (s : State P)
      → I s
      → I (record s { health = Option.map f s.health })

-- A property of every request in the log is such an invariant.
pub All-Keeps : {P : Platform} (Q : Request → Type 0) → Keeps {P = P} Q (λ s. All Q s.log)
All-Keeps Q = record {
  on_send = λ q s asked h. (asked, h);
  on_now = λ s h. h;
  on_start_timer = λ s h. h;
  on_elapsed = λ t s h. h;
  on_health = λ f s h. h;
}

abbrev pub Any : {A : Type 0} → A → Type 0
Any a = Unit

module _ {P : Platform} {I : State P → Type 0} where
  pub Does-pure : {A : Type 0} (R : A → Type 0) (a : A) → R a → Does I R (pure a)
  Does-pure R a r = record { at = λ s h. (h, r) }

  pub Does-raise : {A : Type 0} (R : A → Type 0) (e : Error) → Does I R (raise e)
  Does-raise R e = record { at = λ s h. (h, tt) }

  Does-continue :
      {A B : Type 0} (R : A → Type 0) (S : B → Type 0) (r : Result A Error) (f : A → Exec P B)
      → Returns R r
      → ((a : A) → R a → Does I S (f a))
      → Does I S (continue r f)
  Does-continue R S (ok a) f ra k = k a ra
  Does-continue R S (err e) f ra k = record { at = λ s h. (h, tt) }

  pub Does-bind :
      {A B : Type 0} (R : A → Type 0) (S : B → Type 0) (m : Exec P A) (f : A → Exec P B)
      → Does I R m
      → ((a : A) → R a → Does I S (f a))
      → Does I S (m >>= f)
  unfolding ◌>>=◌
  Does-bind R S m f dm k = record {
    at = λ s h.
        let (kept, returned) = dm.at s h in
        (Does-continue R S (m s).0 f returned k).at (m s).1 kept;
  }

  Does-lift : {A : Type 0} (r : Result A KubeError) → Does I Any (lift_kube r)
  Does-lift (ok a) = record { at = λ s h. (h, tt) }
  Does-lift (err e) = record { at = λ s h. (h, tt) }

  pub Does-attempt : {A : Type 0} (m : Exec P A) → Does I Any m → Does I Any (attempt m)
  unfolding attempt
  Does-attempt m dm = record { at = λ s h. ((dm.at s h).0, tt) }

  module _ {Q : Request → Type 0} (keeps : Keeps Q I) where
    pub Does-send : (q : Request) → Q q → Does I Any (send q)
    unfolding send
    Does-send q asked = record { at = λ s h. (keeps.on_send q s asked h, tt) }

    pub Does-call : (q : Request) → Q q → Does I Any (call q)
    unfolding call
    Does-call q asked =
        Does-bind Any Any (send q) lift_kube (Does-send q asked) (λ r _. Does-lift r)

    pub Does-timestamp : Does I Any timestamp
    unfolding timestamp
    Does-timestamp = record { at = λ s h. (keeps.on_now s h, tt) }

    pub Does-start_timer : Does I Any start_timer
    unfolding start_timer
    Does-start_timer = record { at = λ s h. (keeps.on_start_timer s h, tt) }

    pub Does-elapsed : (t : P.Instant) → Does I Any (elapsed t)
    unfolding elapsed
    Does-elapsed t = record { at = λ s h. (keeps.on_elapsed t s h, tt) }

    pub Does-with_health :
        (f : HealthState P.prometheus → HealthState P.prometheus) → Does I Any (with_health f)
    unfolding with_health
    Does-with_health f = record { at = λ s h. (keeps.on_health f s h, tt) }
