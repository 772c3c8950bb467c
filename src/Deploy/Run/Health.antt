-- ===== src/Deploy/Run/Health.antt =====
-- The fuel of the health check: it runs out only if the clock stands still.
use orascout.Base.{
  ℕ, zero, suc, ◌≡◌, refl, ap, Bool, true, false, List, [], ◌∷◌, ◌++◌, if◌then◌else◌, length, All,
  Result, err,
}
use orascout.Base.Int.{ℤ, ltb_ℤ, ◌+ℤ◌}
use orascout.Host.{Call, Reply, ask, now, wait}
use orascout.Host.Runs.{Event, Runs, stop, next}
use orascout.Deploy.Errors.{Try, DeployError, out_of_fuel, fail, unhealthy, cancelled}
use orascout.Deploy.Strategies.{Request}
use orascout.Deploy.Run.{attempts, healthcheck}

abbrev reading : (c : Call) → Reply c → List ℤ
reading now t = t ∷ []
reading _ r = []

-- What the clock said, in order.
abbrev pub readings : List Event → List ℤ
readings [] = []
readings (e ∷ es) = reading e.request e.reply ++ readings es

-- As many readings as there is fuel, and none after the deadline.
abbrev pub IsEarly : ℕ → ℤ → List ℤ → Type 0
IsEarly fuel deadline ts = (length ts ≡ fuel) × All (λ t. ltb_ℤ deadline t ≡ false) ts

-- The same, where the first reading is the start, from which the deadline is counted.
abbrev pub IsSpent : ℕ → ℤ → List ℤ → Type 0
IsSpent fuel timeout [] = ⊥
IsSpent fuel timeout (start ∷ ts) = IsEarly fuel (start +ℤ timeout) ts

module _ (r : Result DeployError (Unit {0})) (spent : r ≡ err out_of_fuel) where
  -- After a failed attempt: the deadline has not passed, and another attempt is made.
  again :
      (late : Bool) (t : ℤ) (k : Try (Unit {0})) (Q : List ℤ → Type 0) {es : List Event}
      → ((fs : List Event) → Runs r k fs → Q (readings fs))
      → Runs r
          (if late
            then fail unhealthy
            else ask (wait t) (λ stopped. if stopped then fail cancelled else k))
          es
      → (late ≡ false) × Q (readings es)
  again true t k Q h (stop e) = cc (e, spent)
  again false t k Q h (next true (stop e)) = cc (e, spent)
  again false t k Q h (next false run) = (refl, h _ run)

  attempts-IsEarly :
      (fuel : ℕ) (req : Request) (deadline : ℤ) {es : List Event}
      → Runs r (attempts fuel req deadline) es
      → IsEarly fuel deadline (readings es)
  unfolding attempts
  attempts-IsEarly zero req deadline (stop e) = (refl, tt)
  attempts-IsEarly (suc fuel) req deadline (next true (stop e)) = cc (e, spent)
  attempts-IsEarly (suc fuel) req deadline (next false (next t run)) =
      let (early, more) =
        again (ltb_ℤ deadline t) req.spec.health_interval (attempts fuel req deadline)
          (IsEarly fuel deadline) (λ fs more. attempts-IsEarly fuel req deadline more) run in
      (ap suc more.0, (early, more.1))

-- A health check that runs out of fuel has made as many attempts as it had fuel, and after each of
-- them the clock said that the deadline, the start plus the timeout, had not passed. So it does not
-- run out if the clock passes the deadline within that many attempts.
pub healthcheck-IsSpent :
    (fuel : ℕ) (req : Request) {r : Result DeployError (Unit {0})} {events : List Event}
    → Runs r (healthcheck fuel req) events
    → r ≡ err out_of_fuel
    → IsSpent fuel req.spec.health_timeout (readings events)
unfolding healthcheck
healthcheck-IsSpent fuel req {r = r} (next t run) spent =
    attempts-IsEarly r spent fuel req (t +ℤ req.spec.health_timeout) run
