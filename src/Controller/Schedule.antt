-- ===== src/Controller/Schedule.antt =====
-- When kube's controller runtime calls `reconcile` and `error_policy` of
-- src/controller/reconciler.rs for one resource, as src/lib.rs sets it up: the documented behaviour
-- of the runtime, as steps on a clock in seconds.
use k8s_operator_template.Prelude.{
  ℕ, ◌+◌, ◌≤◌, Bool, true, ◌≡◌, refl, sym, ap, subst, ◌⊎◌, inl, inr, Option, none, some, arith,
}
use k8s_operator_template.Prelude.Result.{Result, ok, err}
use k8s_operator_template.Crd.{MyResource}
use k8s_operator_template.Errors.{Error, ErrorStatus, is_not_found}
use k8s_operator_template.Platform.Requests.{Platform}
use k8s_operator_template.Platform.Exec.{State}
use k8s_operator_template.Platform.Events.{Context}
use k8s_operator_template.Reconciler.Actions.{Action, requeue, await_change}
use k8s_operator_template.Reconciler.Loop.{reconcile, error_policy, error_action}
use k8s_operator_template.Reconciler.Counts.{settled}
use k8s_operator_template.Reconciler.Returns.{
  IsReleased, Ends, again, released, missing, told, reconcile-Ends,
}

-- The time, and when the next visit is due, if one is.
pub record Timeline (P : Platform) : Type 0 where
  pub state : State P
  pub clock : ℕ
  pub due : Option ℕ

-- `Action::requeue` asks for a visit after a time, `Action::await_change` for none.
abbrev pub due_after : ℕ → Action → Option ℕ
due_after clock (requeue delay) = some (clock + delay.secs)
due_after clock await_change = none

-- What the runtime did last: nothing, a visit with its start and its end, or it found no such object in its
-- cache.
pub data Last (P : Platform) : Type 0 where
  nothing : Last P
  visited : MyResource → State P → Result Action Error × State P → Last P
  unknown : Last P

-- The first list of the watch asks for a visit, and so does each later change that a watch shows. A
-- visit takes place when it is due, unless the object is not in the cache. The world changes at any
-- time.
pub data Runs {P : Platform} (ctx : Context) : Timeline P → Last P → Type 0 where
  listed :
      (s : State P) (clock : ℕ)
      → Runs ctx (record { state = s; clock = clock; due = some clock }) nothing
  passes :
      {t : Timeline P} {last : Last P} (n due : ℕ)
      → Runs ctx t last
      → t.due ≡ some due
      → t.clock + n ≤ due
      → Runs ctx (record t { clock = t.clock + n }) last
  idles :
      {t : Timeline P} {last : Last P} (n : ℕ)
      → Runs ctx t last
      → t.due ≡ none
      → Runs ctx (record t { clock = t.clock + n }) last
  shown :
      {t : Timeline P} {last : Last P}
      → Runs ctx t last
      → Runs ctx (record t { due = some t.clock }) last
  moves :
      {t : Timeline P} {last : Last P} (w : P.World)
      → Runs ctx t last
      → Runs ctx (record t { state = record t.state { world = w } }) last
  visits :
      {t : Timeline P} {last : Last P} (obj : MyResource)
      → Runs ctx t last
      → t.due ≡ some t.clock
      → Runs ctx
          (record {
            state = settled ctx obj (reconcile ctx obj t.state);
            clock = t.clock;
            due = due_after t.clock (told ctx obj (reconcile ctx obj t.state));
          })
          (visited obj t.state (reconcile ctx obj t.state))
  misses :
      {t : Timeline P} {last : Last P}
      → Runs ctx t last
      → t.due ≡ some t.clock
      → Runs ctx (record t { due = none }) unknown

-- Why no visit is due: the finalizers of the deleted resource were cleared, an object was not found, or there was
-- none in the cache.
abbrev pub Stopped : {P : Platform} → Last P → Type 0
Stopped nothing = ⊥
Stopped {P} (visited obj s end) =
    IsReleased obj s end
    ⊎ ((e : Error) × (end.0 ≡ err e) × (is_not_found P.status_not_found e ≡ true))
Stopped unknown = Unit

pub data Due {P : Platform} (t : Timeline P) (last : Last P) : Type 0 where
  soon : (d : ℕ) → t.due ≡ some d → t.clock ≤ d → d ≤ t.clock + 300 → Due t last
  stopped : t.due ≡ none → Stopped last → Due t last

missing_awaits :
    (f : ErrorStatus → Bool) (e : Error) → is_not_found f e ≡ true → error_action f e ≡ await_change
unfolding error_action
missing_awaits f e gone = rw gone

module _ {P : Platform} {t : Timeline P} {last : Last P} where
  -- Time passes, up to the visit that is due.
  passes-Due :
      (n due : ℕ)
      → t.due ≡ some due
      → t.clock + n ≤ due
      → Due t last
      → Due (record t { clock = t.clock + n }) last
  passes-Due n due at fits (soon d h before_it bound) =
      let same : due ≡ d = cc in soon due at (omega arith) (omega (arith, same))
  passes-Due n due at fits (stopped h why) = cc

  idles-Due : (n : ℕ) → t.due ≡ none → Due t last → Due (record t { clock = t.clock + n }) last
  idles-Due n free (soon d h before_it bound) = cc
  idles-Due n free (stopped h why) = stopped h why

  moves-Due :
      (w : P.World) → Due t last → Due (record t { state = record t.state { world = w } }) last
  moves-Due w (soon d h before_it bound) = soon d h before_it bound
  moves-Due w (stopped h why) = stopped h why

module _ {P : Platform} (ctx : Context) where
  told_ok :
      (obj : MyResource) (end : Result Action Error × State P) (a : Action)
      → end.0 ≡ ok a
      → told ctx obj end ≡ a
  told_ok obj (ok b, t) a h = cc
  told_ok obj (err e, t) a h = cc

  told_missing :
      (obj : MyResource) (end : Result Action Error × State P) (e : Error)
      → end.0 ≡ err e
      → is_not_found P.status_not_found e ≡ true
      → told ctx obj end ≡ await_change
  unfolding error_policy
  told_missing obj (ok b, t) e h gone = cc
  told_missing obj (err e', t) e h gone =
      let same : e' ≡ e = cc in
      missing_awaits P.status_not_found e'
        (subst (λ x. is_not_found P.status_not_found x ≡ true) (sym same) gone)

  visit-Due :
      (obj : MyResource) (t : Timeline P) (end : Result Action Error × State P)
      → Ends ctx obj t.state end
      → Due
          (record {
            state = settled ctx obj end;
            clock = t.clock;
            due = due_after t.clock (told ctx obj end);
          })
          (visited obj t.state end)
  visit-Due obj t end (again i) =
      soon (t.clock + i.delay.secs) (ap (due_after t.clock) i.asks) (omega arith)
        (omega (arith, i.soon))
  visit-Due obj t end (released h) =
      stopped (ap (due_after t.clock) (told_ok obj end await_change h.result)) (inl h)
  visit-Due obj t end (missing e h gone) =
      stopped (ap (due_after t.clock) (told_missing obj end e h gone)) (inr (e, h, gone))

  -- At every moment, whatever the platform answers and whatever changes: the next visit to the
  -- resource is due in at most 300 seconds, unless the last one was to a deleted resource and
  -- sent the patch that clears its finalizers, which was answered without an error, or it ended
  -- with an error that says that an object was not found, or the object
  -- was not in the cache.
  pub Runs-Due : {t : Timeline P} {last : Last P} → Runs ctx t last → Due t last
  Runs-Due (listed s clock) = soon clock refl (omega arith) (omega arith)
  Runs-Due (passes {t} n due before at fits) = passes-Due n due at fits (Runs-Due before)
  Runs-Due (idles n before none_due) = idles-Due n none_due (Runs-Due before)
  Runs-Due (shown {t} before) = soon t.clock refl (omega arith) (omega arith)
  Runs-Due (moves w before) = moves-Due w (Runs-Due before)
  Runs-Due (visits {t} obj before at) =
      visit-Due obj t (reconcile ctx obj t.state) (reconcile-Ends ctx obj t.state)
  Runs-Due (misses before at) = stopped refl tt
