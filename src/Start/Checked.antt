-- ===== src/Start/Checked.antt =====
-- packages/cli/cmd/start: what a health check that succeeds says of the services.
use sentra_lab.Base.{
  ℕ, zero, suc, ◌≤◌, ltb, ◌&&◌, String, ◌≡◌, refl, Bool, true, false, none, some, List, [], ◌∷◌,
  All, length, arith, str_eq_refl, ℤ, Dict, lookup, insert, lookup-insert, Option-cases, Bool-cases,
  inl, inr, ◌⊎◌, ◌⊎◌,
}
use sentra_lab.Start.{ServiceConfig, HealthError, Network}
use sentra_lab.Start.Health.{
  HealthChecker, HealthResult, probe_until, answers, check_http, check_service, new_health_checker,
}
use sentra_lab.Start.Monitor.{
  HealthMonitor, tally, store_checks, check_all_services, check, is_healthy, none_unhealthy,
  all_healthy,
}

module _ {W : Type 0} (net : Network W) where
  probe_until-ok :
      (hc : HealthChecker) (probe : W → Bool × W) (timeout : HealthError) (left : ℕ) (w : W)
      → (probe_until net hc probe timeout left w).0 ≡ none
      → (before : W) × ((probe before).0 ≡ true)
        × ((probe_until net hc probe timeout left w).1 ≡ (probe before).1)
  unfolding probe_until
  probe_until-ok hc probe timeout zero w h = absurd (cc)
  probe_until-ok hc probe timeout (suc left) w h = elim (Bool-cases (net.is_done w)) [
    | inl done ↦ absurd (ground arith)
    | inr going ↦ elim (Bool-cases (probe w).0) [
      | inl up ↦ (w, up, rw (going, up) refl)
      | inr down ↦
          let (before, answered, last) =
            probe_until-ok hc probe timeout left (net.sleep hc.interval (probe w).1)
              (ground arith) in
          (before, answered, rw (going, down) last)
    ]
  ]

  -- An HTTP check that returns no error ended with a request that was answered with a status from 200
  -- to 299.
  pub check_http-ok :
      (hc : HealthChecker) (url : String) (w : W)
      → (check_http net hc url w).0 ≡ none
      → (before : W) × ((answers net url before).0 ≡ true)
        × ((check_http net hc url w).1 ≡ (answers net url before).1)
  unfolding check_http
  check_http-ok hc url w h = probe_until-ok hc (answers net url) _ hc.max_attempts w h

insert-none_unhealthy :
    (k : String) (r : HealthResult) (m : Dict HealthResult)
    → r.healthy ≡ true
    → none_unhealthy m ≡ true
    → none_unhealthy (insert k r m) ≡ true
unfolding none_unhealthy insert
insert-none_unhealthy k r [] h all = ground arith
insert-none_unhealthy k r ((i, s) ∷ m) h all = ground (arith, insert-none_unhealthy k r m h)

lookup-none_unhealthy :
    (k : String) (r : HealthResult) (m : Dict HealthResult)
    → none_unhealthy m ≡ true
    → lookup k m ≡ some r
    → r.healthy ≡ true
unfolding none_unhealthy lookup
lookup-none_unhealthy k r [] all h = absurd (cc)
lookup-none_unhealthy k r ((i, s) ∷ m) all h = ground (arith, lookup-none_unhealthy k r m)

abbrev has : String → Dict HealthResult → Bool
has k m = elim (lookup k m) [ none ↦ false | some r ↦ true ]

has-insert :
    (at k : String) (r : HealthResult) (m : Dict HealthResult)
    → has k m ≡ true
    → has k (insert at r m) ≡ true
has-insert at k r m h = ground (arith, lookup-insert at k r m)

has-inserted : (k : String) (r : HealthResult) (m : Dict HealthResult) → has k (insert k r m) ≡ true
has-inserted k r m = ground (arith, lookup-insert k k r m, str_eq_refl k)

all_healthy-some :
    (k : String) (m : Dict HealthResult)
    → none_unhealthy m ≡ true
    → has k m ≡ true
    → (none_unhealthy m && ltb 0 (length m)) ≡ true
unfolding lookup
all_healthy-some k [] fine h = absurd (cc)
all_healthy-some k (e ∷ m) fine h = ground arith

tally-le : (r : HealthResult) (n : ℕ) → n ≤ tally r n
unfolding tally
tally-le r n = ground arith

tally-zero : (r : HealthResult) (n : ℕ) → tally r n ≡ 0 → r.healthy ≡ true
unfolding tally
tally-zero r n h = ground arith

module _ {W : Type 0} (net : Network W) (show_int : ℤ → String) where
  store_checks-le :
      (services : List ServiceConfig) (m : Dict HealthResult) (n : ℕ) (w : W)
      → n ≤ (store_checks net show_int services m n w).0.1
  unfolding store_checks
  store_checks-le [] m n w = omega arith
  store_checks-le (svc ∷ services) m n w =
      let r = check_service net show_int new_health_checker svc w in
      omega
        (arith, tally-le r.0 n, store_checks-le services (insert svc.name r.0 m) (tally r.0 n) r.1)

  store_checks-has :
      (services : List ServiceConfig) (m : Dict HealthResult) (n : ℕ) (w : W) (k : String)
      → has k m ≡ true
      → has k (store_checks net show_int services m n w).0.0 ≡ true
  unfolding store_checks
  store_checks-has [] m n w k h = h
  store_checks-has (svc ∷ services) m n w k h =
      let r = check_service net show_int new_health_checker svc w in
      store_checks-has services (insert svc.name r.0 m) (tally r.0 n) r.1 k
        (has-insert svc.name k r.0 m h)

  store_checks-ok :
      (services : List ServiceConfig) (m : Dict HealthResult) (n : ℕ) (w : W)
      → (store_checks net show_int services m n w).0.1 ≡ 0
      → none_unhealthy m ≡ true
      → (none_unhealthy (store_checks net show_int services m n w).0.0 ≡ true)
        × All (λ svc. has svc.name (store_checks net show_int services m n w).0.0 ≡ true) services
  unfolding store_checks
  store_checks-ok [] m n w h all = (all, tt)
  store_checks-ok (svc ∷ services) m n w h all =
      let r = check_service net show_int new_health_checker svc w in
      let m' = insert svc.name r.0 m in
      let least = store_checks-le services m' (tally r.0 n) r.1 in
      let up = tally-zero r.0 n (omega (arith, least, h)) in
      let (fine, there) =
        store_checks-ok services m' (tally r.0 n) r.1 h
          (insert-none_unhealthy svc.name r.0 m up all) in
      (
        fine,
        (
          store_checks-has services m' (tally r.0 n) r.1 svc.name (has-inserted svc.name r.0 m),
          there,
        ),
      )

  All-is_healthy :
      (hm : HealthMonitor) (services : List ServiceConfig)
      → none_unhealthy hm.results ≡ true
      → All (λ svc. has svc.name hm.results ≡ true) services
      → All (λ svc. is_healthy svc.name hm ≡ true) services
  unfolding is_healthy
  All-is_healthy hm [] fine there = tt
  All-is_healthy hm (svc ∷ services) fine (h, there) = (
    elim (Option-cases (lookup svc.name hm.results)) [
      | inl gone ↦ absurd (ground arith)
      | inr (r, found) ↦
          rw (found, is_healthy) (lookup-none_unhealthy svc.name r hm.results fine found)
    ],
    All-is_healthy hm services fine there,
  )

  all_healthy-has :
      (hm : HealthMonitor) (services : List ServiceConfig)
      → none_unhealthy hm.results ≡ true
      → All (λ svc. has svc.name hm.results ≡ true) services
      → (services ≡ []) ⊎ (all_healthy hm ≡ true)
  unfolding all_healthy
  all_healthy-has hm [] fine there = inl refl
  all_healthy-has hm (svc ∷ services) fine (h, there) =
      inr (all_healthy-some svc.name hm.results fine h)

  -- Where CheckAllServices reports no error of the monitor's services, a check leaves every one of them
  -- healthy, and all of them where there is one, in whatever order the checks end.
  pub check-is_healthy :
      (hm : HealthMonitor) (w : W)
      → (check_all_services net show_int hm.services w).0.1 ≡ none
      → All (λ svc. is_healthy svc.name (check net show_int hm w).0 ≡ true) hm.services
        × ((hm.services ≡ []) ⊎ (all_healthy (check net show_int hm w).0 ≡ true))
  unfolding check check_all_services all_healthy
  check-is_healthy hm w h =
      let r = store_checks net show_int hm.services [] 0 w in
      let none_failed : r.0.1 ≡ 0 = ground arith in
      let (fine, there) = store_checks-ok hm.services [] 0 w none_failed refl in
      (
        All-is_healthy (check net show_int hm w).0 hm.services fine there,
        all_healthy-has (check net show_int hm w).0 hm.services fine there,
      )
