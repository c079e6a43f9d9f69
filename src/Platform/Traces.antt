-- ===== src/Platform/Traces.antt =====
-- What an action sends until it ends, with a result or with an error.
use k8s_operator_template.Prelude.{◌≡◌, refl, sym, ◌∙◌, ap, List, [], ◌∷◌, ◌++◌, String}
use mathlib.Core.List.{append_assoc}
use k8s_operator_template.Prelude.Result.{Result, ok, err}
use k8s_operator_template.Errors.{Error, KubeError, kube}
use k8s_operator_template.Platform.Requests.{Platform, Request, Answer}
use k8s_operator_template.Platform.Exec.{
  State, Exec, pure, raise, ◌>>=◌, attempt, send, lift_kube, call, timestamp, start_timer,
}
use k8s_operator_template.Platform.Outcomes.{Outcome, Ended, Ended-bind, Ended-map}

-- From `s` to `t` the requests that satisfy `R`, the latest first, were added to the log, and the
-- metrics stayed the same.
pub record Trace {P : Platform} (s t : State P) (R : List Request → Type 0) : Type 0 where
  pub requests : List Request
  pub log : t.log ≡ requests ++ s.log
  pub health : t.health ≡ s.health
  pub holds : R requests

-- From any state `m` ends with a result, having sent requests as `R` says, or with an error, having
-- sent requests as `E` says.
abbrev pub Sends :
    {P : Platform} {A : Type 0}
    → Exec P A
    → (A → List Request → Type 0)
    → (Error → List Request → Type 0)
    → Type 0
Sends {P} m R E = (s : State P) → Ended m s (λ a t. Trace s t (R a)) (λ e t. Trace s t (E e))

module _ {P : Platform} where
  -- What is sent after other requests.
  trace_after :
      {s t u : State P} (xs : List Request) (R : List Request → Type 0)
      → t.log ≡ xs ++ s.log
      → t.health ≡ s.health
      → Trace t u (λ ys. R (ys ++ xs))
      → Trace s u R
  trace_after {s} {t} {u} xs R log same h = record {
    requests = h.requests ++ xs;
    log = h.log ∙ ap (λ r. h.requests ++ r) log ∙ sym (append_assoc h.requests xs s.log);
    health = h.health ∙ same;
    holds = h.holds;
  }

  pub Sends-bind :
      {A B : Type 0} (m : Exec P A) (f : A → Exec P B) (R : A → List Request → Type 0)
      (E : Error → List Request → Type 0) (S : B → List Request → Type 0)
      (F : Error → List Request → Type 0)
      → Sends m R E
      → ((a : A) (xs : List Request)
          → R a xs
          → Sends (f a) (λ b ys. S b (ys ++ xs)) (λ e ys. F e (ys ++ xs)))
      → ((e : Error) (xs : List Request) → E e xs → F e xs)
      → Sends (m >>= f) S F
  Sends-bind m f R E S F h k l s =
      Ended-bind m f s _ _ _ _ (h s)
        (λ a t r.
          Ended-map (f a) t _ _ _ _ (k a r.requests r.holds t)
            (λ b u v. trace_after r.requests (S b) r.log r.health v)
            λ e u v. trace_after r.requests (F e) r.log r.health v)
        λ e t r. record {
          requests = r.requests;
          log = r.log;
          health = r.health;
          holds = l e r.requests r.holds;
        }

  trace_map :
      {s t : State P} (R S : List Request → Type 0)
      → Trace s t R
      → ((xs : List Request) → R xs → S xs)
      → Trace s t S
  trace_map R S h k = record {
    requests = h.requests;
    log = h.log;
    health = h.health;
    holds = k h.requests h.holds;
  }

  pub Sends-map :
      {A : Type 0} (m : Exec P A) (R S : A → List Request → Type 0)
      (E F : Error → List Request → Type 0)
      → Sends m R E
      → ((a : A) (xs : List Request) → R a xs → S a xs)
      → ((e : Error) (xs : List Request) → E e xs → F e xs)
      → Sends m S F
  Sends-map m R S E F h k l s =
      Ended-map m s _ _ _ _ (h s) (λ a t r. trace_map (R a) (S a) r (k a))
        λ e t r. trace_map (E e) (F e) r (l e)

  pub Sends-pure :
      {A : Type 0} (R : A → List Request → Type 0) (E : Error → List Request → Type 0) (a : A)
      → R a []
      → Sends {P = P} (pure a) R E
  Sends-pure R E a h s = record {
    outcome = record { requests = []; log = refl; health = refl; holds = h };
  }

  pub Sends-raise :
      {A : Type 0} (R : A → List Request → Type 0) (E : Error → List Request → Type 0) (e : Error)
      → E e []
      → Sends {P = P} (raise e) R E
  Sends-raise R E e h s = record {
    outcome = record { requests = []; log = refl; health = refl; holds = h };
  }

  pub Sends-send :
      (q : Request) (R : Result (Answer q) KubeError → List Request → Type 0)
      (E : Error → List Request → Type 0)
      → ((w : P.World) → R (P.perform q w).0 (q ∷ []))
      → Sends {P = P} (send q) R E
  unfolding send
  Sends-send q R E h s = record {
    outcome = record { requests = q ∷ []; log = refl; health = refl; holds = h s.world };
  }

  lifted :
      {A : Type 0} (R : A → List Request → Type 0) (E : Error → List Request → Type 0)
      (r : Result A KubeError)
      → ((a : A) → r ≡ ok a → R a [])
      → ((k : KubeError) → r ≡ err k → E (kube k) [])
      → Sends {P = P} (lift_kube r) R E
  lifted R E (ok a) h l s = record {
    outcome = record { requests = []; log = refl; health = refl; holds = h a refl };
  }
  lifted R E (err k) h l s = record {
    outcome = record { requests = []; log = refl; health = refl; holds = l k refl };
  }

  pub Sends-call :
      (q : Request) (R : Answer q → List Request → Type 0) (E : Error → List Request → Type 0)
      → ((w : P.World) (a : Answer q) → (P.perform q w).0 ≡ ok a → R a (q ∷ []))
      → ((k : KubeError) → E (kube k) (q ∷ []))
      → Sends {P = P} (call q) R E
  unfolding call
  Sends-call q R E h l =
      Sends-bind (send q) lift_kube
        (λ r xs. (xs ≡ q ∷ []) × ((w : P.World) × ((P.perform q w).0 ≡ r))) (λ e xs. ⊥) R E
        (Sends-send q _ _ (λ w. (refl, (w, refl))))
        (λ r xs (e, (w, is)). rw e (lifted _ _ r (λ a at. h w a (is ∙ at)) (λ k at. l k)))
        λ e xs h. absurd h

  attempted :
      {A : Type 0} (m : Exec P A) (s : State P) (R : A → List Request → Type 0)
      (F : Error → List Request → Type 0) (S : Result A Error → List Request → Type 0)
      (end : Result A Error × State P)
      → Outcome (λ a t. Trace s t (R a)) (λ e t. Trace s t (F e)) end
      → ((a : A) (xs : List Request) → R a xs → S (ok a) xs)
      → ((e : Error) (xs : List Request) → F e xs → S (err e) xs)
      → Trace s end.1 (S end.0)
  attempted m s R F S (ok a, t) h k l = record {
    requests = h.requests;
    log = h.log;
    health = h.health;
    holds = k a _ h.holds;
  }
  attempted m s R F S (err e, t) h k l = record {
    requests = h.requests;
    log = h.log;
    health = h.health;
    holds = l e _ h.holds;
  }

  pub Sends-attempt :
      {A : Type 0} (m : Exec P A) (R : A → List Request → Type 0)
      (F : Error → List Request → Type 0) (S : Result A Error → List Request → Type 0)
      (E : Error → List Request → Type 0)
      → Sends m R F
      → ((a : A) (xs : List Request) → R a xs → S (ok a) xs)
      → ((e : Error) (xs : List Request) → F e xs → S (err e) xs)
      → Sends {P = P} (attempt m) S E
  unfolding attempt
  Sends-attempt m R F S E h k l s = record { outcome = attempted m s R F S (m s) (h s).outcome k l }

  pub Sends-timestamp :
      (R : String → List Request → Type 0) (E : Error → List Request → Type 0)
      → ((w : P.World) → R (P.now w).0 [])
      → Sends {P = P} timestamp R E
  unfolding timestamp
  Sends-timestamp R E h s = record {
    outcome = record { requests = []; log = refl; health = refl; holds = h s.world };
  }

  pub Sends-start_timer :
      (R : P.Instant → List Request → Type 0) (E : Error → List Request → Type 0)
      → ((t : P.Instant) → R t [])
      → Sends {P = P} start_timer R E
  unfolding start_timer
  Sends-start_timer R E h s = record {
    outcome = record { requests = []; log = refl; health = refl; holds = h _ };
  }
