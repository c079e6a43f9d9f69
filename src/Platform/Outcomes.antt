-- ===== src/Platform/Outcomes.antt =====
-- How an action ends, with a result or with an error.
use k8s_operator_template.Prelude.{◌≡◌, refl}
use k8s_operator_template.Prelude.Result.{Result, ok, err}
use k8s_operator_template.Errors.{Error, KubeError, kube}
use k8s_operator_template.Platform.Requests.{Platform, Request, Answer}
use k8s_operator_template.Platform.Exec.{State, Exec, continue, ◌>>=◌, call, send, lift_kube}
use k8s_operator_template.Platform.Contracts.{sent, Does, Returns}

module _ {P : Platform} {A : Type 0} where
  abbrev pub Outcome :
      (A → State P → Type 0) → (Error → State P → Type 0) → Result A Error × State P → Type 0
  Outcome R E (ok a, t) = R a t
  Outcome R E (err e, t) = E e t

  -- `m` from the state `s` ends with a result and a state as `R` says, or with an error and a state
  -- as `E` says.
  pub record Ended (m : Exec P A) (s : State P) (R : A → State P → Type 0)
      (E : Error → State P → Type 0) : Type 0 where
    pub outcome : Outcome R E (m s)

module _ {P : Platform} where
  ended_continue :
      {A B : Type 0} (R : A → State P → Type 0) (E : Error → State P → Type 0)
      (S : B → State P → Type 0) (F : Error → State P → Type 0) (f : A → Exec P B)
      (end : Result A Error × State P)
      → Outcome R E end
      → ((a : A) (t : State P) → R a t → Ended (f a) t S F)
      → ((e : Error) (t : State P) → E e t → F e t)
      → Outcome S F (continue end.0 f end.1)
  ended_continue R E S F f (ok a, t) h k l = (k a t h).outcome
  ended_continue R E S F f (err e, t) h k l = l e t h

  pub Ended-bind :
      {A B : Type 0} (m : Exec P A) (f : A → Exec P B) (s : State P) (R : A → State P → Type 0)
      (E : Error → State P → Type 0) (S : B → State P → Type 0) (F : Error → State P → Type 0)
      → Ended m s R E
      → ((a : A) (t : State P) → R a t → Ended (f a) t S F)
      → ((e : Error) (t : State P) → E e t → F e t)
      → Ended (m >>= f) s S F
  unfolding ◌>>=◌
  Ended-bind m f s R E S F h k l = record { outcome = ended_continue R E S F f (m s) h.outcome k l }

  outcome_map :
      {A : Type 0} (R S : A → State P → Type 0) (E F : Error → State P → Type 0)
      (end : Result A Error × State P)
      → Outcome R E end
      → ((a : A) (t : State P) → R a t → S a t)
      → ((e : Error) (t : State P) → E e t → F e t)
      → Outcome S F end
  outcome_map R S E F (ok a, t) h k l = k a t h
  outcome_map R S E F (err e, t) h k l = l e t h

  pub Ended-map :
      {A : Type 0} (m : Exec P A) (s : State P) (R S : A → State P → Type 0)
      (E F : Error → State P → Type 0)
      → Ended m s R E
      → ((a : A) (t : State P) → R a t → S a t)
      → ((e : Error) (t : State P) → E e t → F e t)
      → Ended m s S F
  Ended-map m s R S E F h k l = record { outcome = outcome_map R S E F (m s) h.outcome k l }

  pub Ended-call :
      (q : Request) (s : State P) (R : Answer q → State P → Type 0) (E : Error → State P → Type 0)
      → ((a : Answer q) → (P.perform q s.world).0 ≡ ok a → R a (sent q s))
      → ((k : KubeError) → E (kube k) (sent q s))
      → Ended (call q) s R E
  unfolding call send ◌>>=◌
  Ended-call q s R E h l = record { outcome = answered_call (P.perform q s.world).0 refl }
    where
      answered_call :
          (r : Result (Answer q) KubeError)
          → (P.perform q s.world).0 ≡ r
          → Outcome R E (lift_kube r (sent q s))
      answered_call (ok a) e = h a e
      answered_call (err k) e = l k

  -- An action that keeps an invariant.
  pub Ended-keeps :
      {A : Type 0} (I : State P → Type 0) (R : A → Type 0) (m : Exec P A) (s : State P)
      → Does I R m
      → I s
      → Ended m s (λ a t. R a × I t) (λ e t. Unit)
  Ended-keeps I R m s does h = record {
    outcome = kept_end I R (m s) (does.at s h).0 (does.at s h).1;
  }
    where
      kept_end :
          {A : Type 0} (I : State P → Type 0) (R : A → Type 0) (end : Result A Error × State P)
          → I end.1
          → Returns R end.0
          → Outcome (λ a t. R a × I t) (λ e t. Unit) end
      kept_end I R (ok a, t) h r = (r, h)
      kept_end I R (err e, t) h r = tt
