-- ===== src/Agents/Gateway.antt =====
-- agents/gateway.py: the models of a request and a response, and what every gateway offers. `W` is
-- the state of the world that a call reads and changes: the endpoint, the clock, the network.
pub mod Breaker
pub mod Resilient
pub mod Limits
pub mod Fallback
pub mod Caching
mod Witnesses
use sep.Base.{ℕ, String, Bool, false, Option}
use sep.Core.Errors.{Result}

pub record ModelRequest : Type 0 where
  pub model_id : String
  pub prompt_id : String
  pub prompt_version : String
  pub system : String
  pub user : String
  pub max_tokens : ℕ

pub record ModelResponse : Type 0 where
  pub text : String
  pub model_id : String
  pub cached : Bool
  pub prompt_tokens : Option ℕ
  pub completion_tokens : Option ℕ

pub record ModelGateway (W : Type 0) : Type 0 where
  pub model_id : String
  pub complete : ModelRequest → W → Result ModelResponse × W
