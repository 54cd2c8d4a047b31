-- ===== src/Tests/StartTests.antt =====
-- Services and their health checks at concrete inputs; the world is a number of requests.
use sentra_lab.Base.{
  ℕ, ◌+◌, String, ◌≡◌, refl, true, false, some, [], ◌∷◌, All, ℤ, pos, eqb_ℤ, if◌then◌else◌, Table,
  empty, entry, int, bool, table, insert, leb, ◌⊎◌,
}
use sentra_lab.Start.{Network}
use sentra_lab.Start.Services.{engine_config, generate_service_configs}
use sentra_lab.Start.Health.{new_health_checker}
use sentra_lab.Start.Monitor.{HealthMonitor, check_all_services, check, is_healthy, all_healthy}
use sentra_lab.Start.Published.{IsPublished, generate_service_configs-All}
use sentra_lab.Start.Checked.{check-is_healthy}

-- The third connection is made, and each request is answered.
abbrev slow : Network ℕ
slow = record {
  get = λ url w. (some 204, w + 1);
  dial = λ address w. (leb 2 w, w + 1);
  sleep = λ delay w. w;
  now = λ w. w;
  is_done = λ w. false;
}

abbrev show_number : ℤ → String
show_number n = if eqb_ℤ n (pos 50051) then "50051" else "9000"

abbrev mock_config : Table ℕ
mock_config =
    entry "openai" (table (entry "enabled" (bool true) (entry "port" (int (pos 9000)) empty))) empty

generate_service_configs-All_example :
    All
      (IsPublished {F = ℕ} show_number (λ v. "<nil>"))
      (generate_service_configs {F = ℕ} show_number (λ v. "<nil>") mock_config)
generate_service_configs-All_example =
    generate_service_configs-All show_number (λ v. "<nil>") refl mock_config

abbrev monitor : HealthMonitor
monitor = record { services = engine_config ∷ []; interval = 5; results = []; stopped = false }

check-is_healthy_example :
    All (λ svc. is_healthy svc.name (check slow show_number monitor 0).0 ≡ true) monitor.services
    × ((monitor.services ≡ []) ⊎ (all_healthy (check slow show_number monitor 0).0 ≡ true))
unfolding check_all_services new_health_checker insert
check-is_healthy_example = check-is_healthy slow show_number monitor 0 refl
