-- ===== src/Leadership/Elections.antt =====
-- Which sequences of answers make the process of src/main.rs a leader, and which make it exit.
use k8s_operator_template.Prelude.{true, false, ◌≡◌, refl, ◌≢◌, ◌↔◌, List, [], ◌∷◌, arith}
use k8s_operator_template.Leadership.{
  Attempt, acquired, not_acquired, lease_error, Stage, waiting, leading, exited, Leader, start,
  acquire, renew, turn, election,
}

-- The lease is renewed every time.
pub data Holds : List Attempt → Type 0 where
  holds_nil : Holds []
  holds_cons : {xs : List Attempt} → Holds xs → Holds (acquired ∷ xs)

-- The lease is renewed until one attempt does not acquire it.
pub data Drops : List Attempt → Type 0 where
  drops_now : {a : Attempt} {xs : List Attempt} → a ≢ acquired → Drops (a ∷ xs)
  drops_later : {xs : List Attempt} → Drops xs → Drops (acquired ∷ xs)

-- After attempts that do not acquire the lease one does, and then `Rest` holds.
pub data Wins (Rest : List Attempt → Type 0) : List Attempt → Type 0 where
  wins_now : {xs : List Attempt} → Rest xs → Wins Rest (acquired ∷ xs)
  wins_later : {a : Attempt} {xs : List Attempt} → a ≢ acquired → Wins Rest xs → Wins Rest (a ∷ xs)

abbrev in_charge : Leader
in_charge = record { is_leader = true; stage = leading }

abbrev out : Leader
out = record { is_leader = false; stage = exited }

stays_out : (xs : List Attempt) → election xs out ≡ out
unfolding election turn
stays_out [] = refl
stays_out (a ∷ xs) = stays_out xs

leads-Holds : (xs : List Attempt) → (election xs in_charge).stage ≡ leading → Holds xs
unfolding election turn renew
leads-Holds [] h = holds_nil
leads-Holds (acquired ∷ xs) h = holds_cons (leads-Holds xs h)
leads-Holds (not_acquired ∷ xs) h = cc (stays_out xs)
leads-Holds (lease_error e ∷ xs) h = cc (stays_out xs)

Holds-leads : {xs : List Attempt} → Holds xs → (election xs in_charge).stage ≡ leading
unfolding election turn renew
Holds-leads holds_nil = refl
Holds-leads (holds_cons h) = Holds-leads h

exits-Drops : (xs : List Attempt) → (election xs in_charge).stage ≡ exited → Drops xs
unfolding election turn renew
exits-Drops [] h = cc
exits-Drops (acquired ∷ xs) h = drops_later (exits-Drops xs h)
exits-Drops (not_acquired ∷ xs) h = drops_now (λ e. cc)
exits-Drops (lease_error e ∷ xs) h = drops_now (λ e'. cc)

Drops-exits : {xs : List Attempt} → Drops xs → (election xs in_charge).stage ≡ exited
unfolding election turn renew
Drops-exits {xs = acquired ∷ xs} (drops_now n) = absurd (n refl)
Drops-exits {xs = not_acquired ∷ xs} (drops_now n) = rw (stays_out xs)
Drops-exits {xs = lease_error e ∷ xs} (drops_now n) = rw (stays_out xs)
Drops-exits (drops_later h) = Drops-exits h

-- A run in `q` after a win, where `Rest` says that the time in charge ends in `q`.
won :
    (Rest : List Attempt → Type 0) (q : Stage)
    → waiting ≢ q
    → ((xs : List Attempt) → (election xs in_charge).stage ≡ q → Rest xs)
    → (xs : List Attempt) → (election xs start).stage ≡ q
    → Wins Rest xs
unfolding election turn acquire start
won Rest q n k [] h = absurd (n h)
won Rest q n k (acquired ∷ xs) h = wins_now (k xs h)
won Rest q n k (not_acquired ∷ xs) h = wins_later (λ e. cc) (won Rest q n k xs h)
won Rest q n k (lease_error e ∷ xs) h = wins_later (λ e'. cc) (won Rest q n k xs h)

in_charge_after :
    {Rest : List Attempt → Type 0} (q : Stage)
    → ((xs : List Attempt) → Rest xs → (election xs in_charge).stage ≡ q)
    → {xs : List Attempt} → Wins Rest xs
    → (election xs start).stage ≡ q
unfolding election turn acquire start
in_charge_after q k (wins_now h) = k _ h
in_charge_after q k {xs = acquired ∷ xs} (wins_later n h) = absurd (n refl)
in_charge_after q k {xs = not_acquired ∷ xs} (wins_later n h) = in_charge_after q k h
in_charge_after q k {xs = lease_error e ∷ xs} (wins_later n h) = in_charge_after q k h

-- The controller runs exactly when some attempt acquired the lease and every later one renewed it.
pub election_leads_iff : (xs : List Attempt) → ((election xs start).stage ≡ leading) ↔ Wins Holds xs
election_leads_iff xs =
    (won Holds leading (λ h. cc) leads-Holds xs, λ h. in_charge_after leading (λ ys. Holds-leads) h)

-- The process exits exactly when, after an attempt that acquired the lease, a later one did not,
-- be it an answer or an error.
pub election_exits_iff : (xs : List Attempt) → ((election xs start).stage ≡ exited) ↔ Wins Drops xs
election_exits_iff xs =
    (won Drops exited (λ h. cc) exits-Drops xs, λ h. in_charge_after exited (λ ys. Drops-exits) h)

-- The flag says whether the controller runs.
abbrev IsMarked : Leader → Type 0
IsMarked l = (l.is_leader ≡ true) ↔ (l.stage ≡ leading)

turn-IsMarked : (a : Attempt) (l : Leader) → IsMarked l → IsMarked (turn a l)
unfolding turn acquire renew
turn-IsMarked a l h = ground (arith, h)

election-IsMarked : (xs : List Attempt) (l : Leader) → IsMarked l → IsMarked (election xs l)
unfolding election
election-IsMarked [] l h = h
election-IsMarked (a ∷ xs) l h = election-IsMarked xs (turn a l) (turn-IsMarked a l h)

-- After any answers the leadership flag is set exactly when the controller runs.
pub election-flag :
    (xs : List Attempt)
    → ((election xs start).is_leader ≡ true) ↔ ((election xs start).stage ≡ leading)
unfolding start
election-flag xs = election-IsMarked xs start (ground arith)
