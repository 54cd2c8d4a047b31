-- ===== src/Start/Monitor.antt =====
-- packages/cli/cmd/start/health_checker.go: CheckAllServices and HealthMonitor. Each goroutine checks
-- one service and stores its result under the lock; the checks are taken as steps in the order in
-- which they end, which is the order of the list of services.
use sentra_lab.Base.{
  ℕ, ◌+◌, String, Bool, true, false, ◌&&◌, Option, none, some, List, [], ◌∷◌, if◌then◌else◌, ltb,
  length, ℤ, Dict, lookup, insert,
}
use sentra_lab.Start.{ServiceConfig, Network}
use sentra_lab.Start.Health.{HealthResult, check_service, new_health_checker}

pub record HealthMonitor : Type 0 where
  pub services : List ServiceConfig
  pub interval : ℕ
  pub results : Dict HealthResult
  pub stopped : Bool

unfoldable pub new_health_monitor : List ServiceConfig → ℕ → HealthMonitor
new_health_monitor services interval = record {
  services = services;
  interval = interval;
  results = [];
  stopped = false;
}

-- An error is sent for a result that is not healthy.
unfoldable pub tally : HealthResult → ℕ → ℕ
tally result errors = if result.healthy then errors else errors + 1

module _ {W : Type 0} (net : Network W) (show_int : ℤ → String) where
  -- The results and the number of errors, as the checks end.
  unfoldable pub store_checks :
      List ServiceConfig → Dict HealthResult → ℕ → W → (Dict HealthResult × ℕ) × W
  unfolding check_service tally
  store_checks [] results errors w = ((results, errors), w)
  store_checks (svc ∷ services) results errors w =
      let (result, w') = check_service net show_int new_health_checker svc w in
      store_checks services (insert svc.name result results) (tally result errors) w'

  -- The error is the number of services that it names.
  unfoldable pub check_all_services : List ServiceConfig → W → (Dict HealthResult × Option ℕ) × W
  unfolding store_checks
  check_all_services services w =
      let ((results, errors), w') = store_checks services [] 0 w in
      ((results, if ltb 0 errors then some errors else none), w')

  unfoldable pub check : HealthMonitor → W → HealthMonitor × W
  unfolding check_all_services
  check hm w =
      let ((results, failed), w') = check_all_services hm.services w in
      (record hm { results = results }, w')

-- Closing the channel; none is the panic of a second close.
unfoldable pub stop : HealthMonitor → Option HealthMonitor
stop hm = if hm.stopped then none else some (record hm { stopped = true })

unfoldable pub get_results : HealthMonitor → Dict HealthResult
get_results hm = hm.results

unfoldable pub is_healthy : String → HealthMonitor → Bool
is_healthy service_name hm = elim (lookup service_name hm.results) [
  | none ↦ false
  | some result ↦ result.healthy
]

unfoldable pub none_unhealthy : Dict HealthResult → Bool
none_unhealthy [] = true
none_unhealthy ((name, result) ∷ results) = result.healthy && none_unhealthy results

unfoldable pub all_healthy : HealthMonitor → Bool
unfolding none_unhealthy
all_healthy hm = none_unhealthy hm.results && ltb 0 (length hm.results)
