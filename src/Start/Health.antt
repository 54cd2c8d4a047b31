-- ===== src/Start/Health.antt =====
-- packages/cli/cmd/start/docker_manager.go: HealthChecker; health_checker.go: the check of a service.
use sentra_lab.Base.{
  ℕ, zero, suc, ◌-◌, ◌&&◌, leb, ltb, String, ◌<>◌, Bool, true, false, Option, none, some,
  if◌then◌else◌, str_eq, ℤ,
}
use sentra_lab.Start.{
  ServiceConfig, HealthCheckConfig, HealthError, Network, http_timeout, tcp_timeout, grpc_timeout,
  context_done, unknown_type,
}

pub record HealthChecker : Type 0 where
  pub max_attempts : ℕ
  pub interval : ℕ

unfoldable pub new_health_checker : HealthChecker
new_health_checker = record { max_attempts = 60; interval = 1000000000 }

pub record HealthResult : Type 0 where
  pub service_name : String
  pub healthy : Bool
  pub duration : ℕ
  pub attempts : ℕ
  pub error : Option HealthError
  pub checked_at : ℕ

abbrev pub is_none : Option HealthError → Bool
is_none none = true
is_none (some e) = false

module _ {W : Type 0} (net : Network W) where
  -- The loop that the three checks share: a probe and a sleep in each turn, with the turns left.
  unfoldable pub probe_until :
      HealthChecker → (W → Bool × W) → HealthError → ℕ → W → Option HealthError × W
  probe_until hc probe timeout zero w = (some timeout, w)
  probe_until hc probe timeout (suc left) w =
      let (up, w') = probe w in
      let rest = probe_until hc probe timeout left (net.sleep hc.interval w') in
      if net.is_done w then (some context_done, w) else if up then (none, w') else rest

  -- An answer with a status from 200 to 299.
  unfoldable pub answers : String → W → Bool × W
  answers url w =
      let (status, w') = net.get url w in
      (elim status [ none ↦ false | some code ↦ leb 200 code && ltb code 300 ], w')

  unfoldable pub check_http : HealthChecker → String → W → Option HealthError × W
  unfolding probe_until answers
  check_http hc url w =
      probe_until hc (answers url) (http_timeout hc.max_attempts) hc.max_attempts w

  -- `address` is the host and the port, joined by a colon.
  unfoldable pub check_tcp : HealthChecker → String → W → Option HealthError × W
  unfolding probe_until
  check_tcp hc address w =
      probe_until hc (net.dial address) (tcp_timeout address hc.max_attempts) hc.max_attempts w

  unfoldable pub check_grpc : HealthChecker → String → W → Option HealthError × W
  unfolding probe_until
  check_grpc hc address w =
      probe_until hc (net.dial address) (grpc_timeout address hc.max_attempts) hc.max_attempts w

  -- The switch on the type; `show_int` is %d.
  unfoldable pub check_type :
      (ℤ → String) → HealthChecker → HealthCheckConfig → W → Option HealthError × W
  unfolding check_http check_tcp check_grpc
  check_type show_int hc c w =
      if str_eq c.kind "http"
      then check_http hc c.url w
      else if str_eq c.kind "tcp"
      then check_tcp hc (c.host <> ":" <> show_int c.port) w
      else if str_eq c.kind "grpc"
      then check_grpc hc c.address w
      else (some (unknown_type c.kind), w)

  -- checkService; the number of attempts is never counted.
  unfoldable pub check_service : (ℤ → String) → HealthChecker → ServiceConfig → W → HealthResult × W
  unfolding check_type
  check_service show_int hc service w =
      let (failed, w') = check_type show_int hc service.health_check w in
      (
        record {
          service_name = service.name;
          healthy = is_none failed;
          duration = net.now w' - net.now w;
          attempts = 0;
          error = failed;
          checked_at = net.now w';
        },
        w',
      )
