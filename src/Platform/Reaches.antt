-- ===== src/Platform/Reaches.antt =====
-- Actions that return: `Reaches m s R` says that `m` from the state `s` ends without an error, with
-- a result and a state that satisfy `R`.
use k8s_operator_template.Prelude.{◌≡◌, refl, ◌∙◌}
use k8s_operator_template.Prelude.Result.{Result, ok, err}
use k8s_operator_template.Errors.{Error, KubeError}
use k8s_operator_template.Platform.Requests.{Platform, Request, Answer}
use k8s_operator_template.Platform.Contracts.{sent}
use k8s_operator_template.Platform.Exec.{State, Exec, pure, ◌>>=◌, attempt, send, call}

pub record Reaches {P : Platform} {A : Type 0} (m : Exec P A) (s : State P)
    (R : A → State P → Type 0) : Type 0 where
  pub result : A
  pub end : State P
  pub runs : m s ≡ (ok result, end)
  pub holds : R result end

module _ {P : Platform} where
  Reaches-pure :
      {A : Type 0} (a : A) (s : State P) (R : A → State P → Type 0) → R a s → Reaches (pure a) s R
  Reaches-pure a s R h = record { result = a; end = s; runs = refl; holds = h }

  pub Reaches-bind :
      {A B : Type 0} (m : Exec P A) (f : A → Exec P B) (s : State P) (R : A → State P → Type 0)
      (S : B → State P → Type 0)
      → Reaches m s R
      → ((a : A) (t : State P) → R a t → Reaches (f a) t S)
      → Reaches (m >>= f) s S
  unfolding ◌>>=◌
  Reaches-bind m f s R S h k =
      let g = k h.result h.end h.holds in
      record { result = g.result; end = g.end; runs = rw h.runs g.runs; holds = g.holds }

  pub Reaches-send :
      (q : Request) (s : State P) (R : Result (Answer q) KubeError → State P → Type 0)
      → R (P.perform q s.world).0 (sent q s)
      → Reaches (send q) s R
  unfolding send
  Reaches-send q s R h = record {
    result = (P.perform q s.world).0;
    end = sent q s;
    runs = refl;
    holds = h;
  }

  pub Reaches-call :
      (q : Request) (s : State P) (a : Answer q) (R : Answer q → State P → Type 0)
      → (P.perform q s.world).0 ≡ ok a
      → R a (sent q s)
      → Reaches (call q) s R
  unfolding call send ◌>>=◌
  Reaches-call q s a R e h = record { result = a; end = sent q s; runs = rw (e, call); holds = h }

  -- An attempt at an action that returns.
  pub Reaches-attempt :
      {A : Type 0} (m : Exec P A) (s : State P) (R : A → State P → Type 0)
      (S : Result A Error → State P → Type 0)
      → Reaches m s R
      → ((a : A) (t : State P) → R a t → S (ok a) t)
      → Reaches (attempt m) s S
  unfolding attempt
  Reaches-attempt m s R S h k = record {
    result = ok h.result;
    end = h.end;
    runs = rw h.runs;
    holds = k h.result h.end h.holds;
  }

-- An action that returns a result as `R` says and leaves the metrics alone.
abbrev pub Quiet : {P : Platform} {A : Type 0} → Exec P A → State P → (A → Type 0) → Type 0
Quiet m s R = Reaches m s (λ a t. R a × (t.health ≡ s.health))

module _ {P : Platform} where
  pub Quiet-pure : {A : Type 0} (a : A) (s : State P) (R : A → Type 0) → R a → Quiet (pure a) s R
  Quiet-pure a s R h = Reaches-pure a s _ (h, refl)

  pub Quiet-bind :
      {A B : Type 0} (m : Exec P A) (f : A → Exec P B) (s : State P) (R : A → Type 0)
      (S : B → Type 0)
      → Quiet m s R
      → ((a : A) (t : State P) → R a → Quiet (f a) t S)
      → Quiet (m >>= f) s S
  unfolding ◌>>=◌
  Quiet-bind m f s R S h k =
      let g = k h.result h.end h.holds.0 in
      record {
        result = g.result;
        end = g.end;
        runs = rw h.runs g.runs;
        holds = (g.holds.0, g.holds.1 ∙ h.holds.1);
      }

-- `m` from the state `s` ends with the error `e`, in a state that satisfies `R`.
pub record Fails {P : Platform} {A : Type 0} (m : Exec P A) (s : State P) (e : Error)
    (R : State P → Type 0) : Type 0 where
  pub end : State P
  pub runs : m s ≡ (err e, end)
  pub holds : R end

module _ {P : Platform} where
  -- An error later in a block is the error of the block.
  pub Fails-later :
      {A B : Type 0} (m : Exec P A) (f : A → Exec P B) (s : State P) (e : Error)
      (R : A → State P → Type 0) (S : State P → Type 0)
      → Reaches m s R
      → ((a : A) (t : State P) → R a t → Fails (f a) t e S)
      → Fails (m >>= f) s e S
  unfolding ◌>>=◌
  Fails-later m f s e R S h k =
      let g = k h.result h.end h.holds in
      record { end = g.end; runs = rw h.runs g.runs; holds = g.holds }

  -- An error early in a block ends it.
  pub Fails-here :
      {A B : Type 0} (m : Exec P A) (f : A → Exec P B) (s : State P) (e : Error)
      (S : State P → Type 0)
      → Fails m s e S
      → Fails (m >>= f) s e S
  unfolding ◌>>=◌
  Fails-here m f s e S h = record { end = h.end; runs = rw h.runs; holds = h.holds }
