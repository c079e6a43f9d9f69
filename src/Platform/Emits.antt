-- ===== src/Platform/Emits.antt =====
-- Actions that send a fixed list of requests, or the first of them.
use k8s_operator_template.Prelude.{◌≡◌, refl, sym, ap, ◌∙◌, List, [], ◌∷◌, ◌++◌}
use mathlib.Core.List.{append_assoc}
use k8s_operator_template.Errors.{Error, KubeError, kube}
use k8s_operator_template.Platform.Requests.{Platform, Request}
use k8s_operator_template.Platform.Exec.{Exec, send, call, ◌>>=◌}
use k8s_operator_template.Platform.Traces.{Sends, Sends-map, Sends-bind, Sends-send, Sends-call}

-- The error is kube's.
pub data IsKube (e : Error) : Type 0 where
  from_kube : (k : KubeError) → e ≡ kube k → IsKube e

-- The requests `ys` are the first of `full`. Both have the latest first.
pub record Begins (ys full : List Request) : Type 0 where
  pub rest : List Request
  pub order : rest ++ ys ≡ full

pub Begins-all : (ys : List Request) → Begins ys ys
Begins-all ys = record { rest = []; order = refl }

-- More requests come after the full ones.
pub Begins-later :
    (zs : List Request) (ys full : List Request) → Begins ys full → Begins ys (zs ++ full)
Begins-later zs ys full h = record {
  rest = zs ++ h.rest;
  order = append_assoc zs h.rest ys ∙ ap (λ (r : List Request). zs ++ r) h.order;
}

-- The same requests come before both.
pub Begins-earlier : (ys full xs : List Request) → Begins ys full → Begins (ys ++ xs) (full ++ xs)
Begins-earlier ys full xs h = record {
  rest = h.rest;
  order = sym (append_assoc h.rest ys xs) ∙ ap (λ (r : List Request). r ++ xs) h.order;
}

-- The error is kube's, and only the first of the requests `xs` were sent.
abbrev pub Stops : List Request → Error → List Request → Type 0
Stops xs e ys = IsKube e × Begins ys xs

-- `m` sends the requests `xs`, the latest first, and stops at an error of kube.
abbrev pub Emits : {P : Platform} {A : Type 0} → Exec P A → List Request → Type 0
Emits m xs = Sends m (λ a ys. ys ≡ xs) (Stops xs)

-- `m` sends the requests `xs` and has a result.
abbrev pub Tells : {P : Platform} {A : Type 0} → Exec P A → List Request → Type 0
Tells m xs = Sends m (λ a ys. ys ≡ xs) (λ e ys. ⊥)

module _ {P : Platform} where
  -- The rest of a block, after an action that sends `xs`.
  pub Emits-then :
      {A B : Type 0} (m : Exec P A) (xs : List Request) (f : A → Exec P B)
      (S : B → List Request → Type 0) (F : Error → List Request → Type 0)
      → Emits m xs
      → ((e : Error) (ys : List Request) → Stops xs e ys → F e ys)
      → ((a : A) → Sends (f a) (λ b ys. S b (ys ++ xs)) (λ e ys. F e (ys ++ xs)))
      → Sends (m >>= f) S F
  Emits-then m xs f S F h l k =
      Sends-bind m f (λ a ys. ys ≡ xs) (Stops xs) S F h (λ a ys e. rw e (k a)) l

  pub Tells-then :
      {A B : Type 0} (m : Exec P A) (xs : List Request) (f : A → Exec P B)
      (S : B → List Request → Type 0) (F : Error → List Request → Type 0)
      → Tells m xs
      → ((a : A) → Sends (f a) (λ b ys. S b (ys ++ xs)) (λ e ys. F e (ys ++ xs)))
      → Sends (m >>= f) S F
  Tells-then m xs f S F h k =
      Sends-bind m f (λ a ys. ys ≡ xs) (λ e ys. ⊥) S F h (λ a ys e. rw e (k a)) λ e ys l. absurd l

  pub Emits-bind :
      {A B : Type 0} (m : Exec P A) (xs : List Request) (f : A → Exec P B) (ys : List Request)
      → Emits m xs
      → ((a : A) → Emits (f a) ys)
      → Emits (m >>= f) (ys ++ xs)
  Emits-bind m xs f ys h k =
      Emits-then m xs f _ _ h (λ e zs l. (l.0, Begins-later ys zs xs l.1))
        λ a.
          Sends-map (f a) _ _ _ _ (k a) (λ b zs e. ap (λ (r : List Request). r ++ xs) e)
            λ e zs l. (l.0, Begins-earlier zs ys xs l.1)

  pub Emits-call : (q : Request) → Emits {P = P} (call q) (q ∷ [])
  Emits-call q = Sends-call q _ _ (λ w a is. refl) (λ k. (from_kube k refl, Begins-all (q ∷ [])))

  pub Tells-send : (q : Request) → Tells {P = P} (send q) (q ∷ [])
  Tells-send q = Sends-send q _ _ (λ r. refl)
