-- ===== src/Agents/Runtime/Choice.antt =====
-- agents/runtime.py: `_next_action`, the choice of a step's action, and `_exhausted`. The log is left
-- out. `llm_suspended` and the configuration stay as they are during a step.
pub mod Budgets
use Prim.Native.String
use sep.Base.{
  ℕ, ◌+◌, ◌-◌, String, Bool, true, false, not, ◌&&◌, Option, none, some, List, [], ◌∷◌, ◌++◌,
  if◌then◌else◌, leb, ltb,
}
use sep.Core.Errors.{Error, Result, ok, err, model_error}
use sep.Store.Session.{Exec, pure, lift, ◌>>=◌}
use sep.Agents.Gateway.{ModelRequest, ModelResponse, ModelGateway}
use sep.Agents.Runtime.{
  Budget, Rejection, json_decode_error, invalid_action, action_rejected, ModelFault, model_raised,
  invalid_reply, Counters, Reply, accepted, rejected, failed, AgentProgram, AgentRuntime,
}
use sep.Agents.Runtime.Observation.{fit_observation}

-- Who chose an action.
pub data Policy : Type 0 where
  playbook playbook_budget playbook_recovery llm playbook_fallback : Policy

-- `type(exc).__name__`
rejection_name : Rejection → String
rejection_name json_decode_error = "JSONDecodeError"
rejection_name invalid_action = "ValidationError"
rejection_name action_rejected = "ActionRejected"

pub record Choice (J : Type 0) : Type 0 where
  pub action : J
  pub policy : Policy
  pub counters : Counters

-- The model that the runtime asks: none if the agents are disabled or suspended.
unfoldable pub llm_gateway : {W J : Type 0} → AgentRuntime W J → Option (ModelGateway W)
llm_gateway runtime = if runtime.enabled && not runtime.llm_suspended then runtime.gateway else none

module _ {W S R J : Type 0} (runtime : AgentRuntime W J) (program : AgentProgram W S R J) where
  pub by_playbook : Policy → S → Counters → Exec W (Choice J)
  by_playbook policy state counters = do
    action ← program.playbook state
    pure (record { action = action; policy = policy; counters = counters })

  pub fall_back : Policy → S → Counters → Exec W (Choice J)
  unfolding by_playbook
  fall_back policy state counters =
      by_playbook policy state (record counters { fallbacks = counters.fallbacks + 1 })

  -- Both attempts are over without an action.
  pub give_up : ModelFault → S → Counters → Exec W (Choice J)
  unfolding by_playbook
  give_up fault state counters = by_playbook playbook_fallback state (record counters {
    fallbacks = counters.fallbacks + 1;
    model_errors = counters.model_errors ++ (fault ∷ []);
  })

  -- json.loads(clean_model_text(reply.text)), the test for an object, and program.parse
  parsed : Result (Reply J) → Result (Reply J)
  parsed (err e) = err e
  parsed (ok (accepted action)) = program.parse action
  parsed (ok (rejected rejection)) = ok (rejected rejection)
  parsed (ok failed) = ok failed

  pub read_reply : Result ModelResponse → Result (Reply J)
  unfolding parsed
  read_reply (ok reply) = parsed (runtime.loads_action reply.text)
  read_reply (err model_error) = ok failed
  read_reply (err e) = err e

  -- One request to the model, and what becomes of the reply.
  pub ask : ModelGateway W → ModelRequest → Exec W (Reply J)
  unfolding read_reply
  ask gateway request w = let (reply, w') = gateway.complete request w in (read_reply reply, w')

  request_of : ModelGateway W → String → ModelRequest
  request_of gateway user = record {
    model_id = gateway.model_id;
    prompt_id = program.prompt.prompt_id;
    prompt_version = program.prompt.version;
    system = program.prompt.system;
    user = user;
    max_tokens = runtime.max_output_tokens;
  }

  repair_text : String → Rejection → String
  unfolding rejection_name
  repair_text user rejection =
      String.◌++◌ user
        (String.◌++◌ "\nYOUR PREVIOUS REPLY WAS INVALID: invalid:" (rejection_name rejection))

  abbrev pub counted_call : Counters → Counters
  counted_call counters = record counters { model_calls = counters.model_calls + 1 }

  abbrev pub counted_invalid : Counters → Counters
  counted_invalid counters = record counters { invalid_replies = counters.invalid_replies + 1 }

  -- The second attempt, in which a rejected reply ends the search.
  pub after_second : S → Counters → Reply J → Exec W (Choice J)
  unfolding give_up
  after_second state counters (accepted action) =
      pure (record { action = action; policy = llm; counters = counters })
  after_second state counters failed = give_up model_raised state counters
  after_second state counters (rejected rejection) =
      give_up (invalid_reply rejection) state (counted_invalid counters)

  pub ask_again : ModelGateway W → String → S → Counters → Exec W (Choice J)
  unfolding ask request_of after_second
  ask_again gateway user state counters = do
    reply ← ask gateway (request_of gateway user)
    after_second state (counted_call counters) reply

  -- The first attempt: a rejected reply is asked for once more, if the budget has a call left.
  pub after_first : ModelGateway W → String → S → Counters → Reply J → Exec W (Choice J)
  unfolding give_up ask_again repair_text
  after_first gateway user state counters (accepted action) =
      pure (record { action = action; policy = llm; counters = counters })
  after_first gateway user state counters failed = give_up model_raised state counters
  after_first gateway user state counters (rejected rejection) =
      if ltb counters.model_calls runtime.budget.max_model_calls
      then ask_again gateway (repair_text user rejection) state
          (record (counted_invalid counters) { repairs = counters.repairs + 1 })
      else give_up (invalid_reply rejection) state (counted_invalid counters)

  pub ask_model : ModelGateway W → S → Counters → Exec W (Choice J)
  unfolding ask request_of after_first fit_observation
  ask_model gateway state counters = do
    payload ← program.observe state
    user ← lift (fit_observation runtime.codec payload runtime.max_prompt_chars)
    reply ← ask gateway (request_of gateway user)
    after_first gateway user state (counted_call counters) reply

  pub is_stuck : Option (S → Exec W Bool) → S → Exec W Bool
  is_stuck none state = pure false
  is_stuck (some needs) state = needs state

  pub unless_stuck : ModelGateway W → S → Counters → Bool → Exec W (Choice J)
  unfolding fall_back ask_model
  unless_stuck gateway state counters true = fall_back playbook_recovery state counters
  unless_stuck gateway state counters false = ask_model gateway state counters

  pub choose : Option (ModelGateway W) → S → Counters → Exec W (Choice J)
  unfolding by_playbook fall_back is_stuck unless_stuck
  choose none state counters = by_playbook playbook state counters
  choose (some gateway) state counters =
      if leb runtime.budget.max_model_calls counters.model_calls
      then fall_back playbook_budget state counters
      else do
        stuck ← is_stuck program.needs_playbook state
        unless_stuck gateway state counters stuck

  unfoldable pub next_action : S → Counters → Exec W (Choice J)
  unfolding choose llm_gateway
  next_action state counters = choose (llm_gateway runtime) state counters

-- Which budget is used up. The clock is read only if the counters are within theirs.
unfoldable pub exhausted : {W J : Type 0} → AgentRuntime W J → Counters → ℕ → Exec W (Option String)
exhausted runtime counters started w =
    if leb runtime.budget.max_steps counters.steps
    then (ok (some "BUDGET_STEPS"), w)
    else if leb runtime.budget.max_tool_calls counters.tool_calls
    then (ok (some "BUDGET_TOOL_CALLS"), w)
    else let (now, w') = runtime.clock w in
      if ltb runtime.budget.max_seconds (now - started)
      then (ok (some "BUDGET_TIME"), w')
      else (ok none, w')
