-- ===== src/Agents/Runtime.antt =====
-- agents/runtime.py: the models of a budget, a run's counters and its manifest, and the protocol of
-- an agent program. `W` is the state of the world that tools, models and the clock read and change,
-- `S` a program's state, `R` its result, and `J` a JSON value. The context that a program's
-- functions are given is fixed for a run, so they are taken with it put in.
pub mod Observation
pub mod Choice
pub mod Loop
pub mod Manifest
pub mod Run
use sep.Base.{ℕ, String, Bool, Option, List}
use sep.Core.Errors.{Error, Result}
use sep.Store.Session.{Exec}
use sep.Agents.Gateway.{ModelGateway}
use sep.Agents.Runtime.Observation.{Payload, Codec}

pub record Budget : Type 0 where
  -- the seconds are in the clock's unit
  pub max_steps : ℕ
  pub max_tool_calls : ℕ
  pub max_model_calls : ℕ
  pub max_seconds : ℕ

pub record RunManifest : Type 0 where
  pub run_id : String
  pub idempotency_key : String
  pub agent : String
  pub agent_version : String
  pub subject : String
  pub prompt_id : String
  pub prompt_version : String
  pub prompt_digest : String
  pub model_id : String
  pub policy_mode : String
  pub tool_schema_version : String
  pub config_version : String
  pub config_fingerprint : String
  pub snapshot_id : String
  pub policy_bundle_id : String
  pub as_of : String
  pub principal : String
  pub extra : List (String × String)

-- Why a reply of the model is not an action: the class of the exception.
pub data Rejection : Type 0 where
  json_decode_error invalid_action action_rejected : Rejection

-- What a fallback is recorded with; the text of a ModelError is left out.
pub data ModelFault : Type 0 where
  model_raised : ModelFault
  invalid_reply : Rejection → ModelFault

pub record Counters : Type 0 where
  pub steps : ℕ
  pub tool_calls : ℕ
  pub model_calls : ℕ
  pub fallbacks : ℕ
  pub invalid_replies : ℕ
  pub repairs : ℕ
  pub model_errors : List ModelFault

-- What becomes of a model's reply. `failed` is a ModelError; another exception ends the run.
pub data Reply (J : Type 0) : Type 0 where
  accepted : J → Reply J
  rejected : Rejection → Reply J
  failed : Reply J

pub record PromptTemplate : Type 0 where
  pub prompt_id : String
  pub version : String
  pub system : String

-- `needs_playbook` is there if the program has the method, and `tool_call` is
-- `int(observation.get("tool_call", 0))`.
pub record AgentProgram (W S R J : Type 0) : Type 0 where
  pub name : String
  pub version : String
  pub prompt : PromptTemplate
  pub start : String → Exec W S
  pub playbook : S → Exec W J
  pub observe : S → Exec W (Payload J)
  pub parse : J → Result (Reply J)
  pub needs_playbook : Option (S → Exec W Bool)
  pub apply : S → J → ℕ → Exec W (S × J)
  pub tool_call : J → ℕ
  pub done : S → Bool
  pub exhaust : S → String → S
  pub finalize : S → String → Counters → Exec W R

-- What the runtime is built with, and what it reads of the configuration. `loads_action` is the
-- reading of a model's text: json.loads of the cleaned text, and the test that it is an object.
pub record AgentRuntime (W J : Type 0) : Type 0 where
  pub gateway : Option (ModelGateway W)
  pub enabled : Bool
  pub llm_suspended : Bool
  pub budget : Budget
  pub max_prompt_chars : ℕ
  pub max_output_tokens : ℕ
  pub clock : W → ℕ × W
  pub loads_action : String → Result (Reply J)
  pub codec : Codec J
