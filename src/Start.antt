-- ===== src/Start.antt =====
-- packages/cli/cmd/start: the services that the start command runs, and their health. `W` is the state
-- of the world: the network, the clock and the context.
pub mod Services
pub mod Health
pub mod Monitor
pub mod Published
pub mod Checked
use sentra_lab.Base.{ℕ, String, Bool, Option, List, Dict, ℤ}

pub record HealthCheckConfig : Type 0 where
  pub kind : String
  pub url : String
  pub host : String
  pub port : ℤ
  pub address : String

pub record ServiceConfig : Type 0 where
  pub name : String
  pub image : String
  pub ports : Dict ℤ
  pub environment : Dict String
  pub volumes : List String
  pub health_check : HealthCheckConfig
  pub depends_on : List String

pub data HealthError : Type 0 where
  http_timeout : ℕ → HealthError
  tcp_timeout grpc_timeout : String → ℕ → HealthError
  context_done : HealthError
  unknown_type : String → HealthError

-- What the checks use of net, net/http, time and context: the status of an answer, whether a
-- connection was made, a sleep, the time, and whether the context is done.
pub record Network (W : Type 0) : Type 0 where
  pub get : String → W → Option ℕ × W
  pub dial : String → W → Bool × W
  pub sleep : ℕ → W → W
  pub now : W → ℕ
  pub is_done : W → Bool
