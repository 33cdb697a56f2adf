-- ===== src/Agents/Runtime/Loop.antt =====
-- agents/runtime.py: the loop of `AgentRuntime.run` and `_checkpoint`. The tables agent_runs,
-- agent_steps and agent_run_results are lists, newest row first; only the runtime writes them.
-- Tracing and the time stamps of the rows are left out.
pub mod Limits
pub mod Checkpoint
use sep.Base.{
  ℕ, zero, suc, ◌+◌, ◌-◌, String, Bool, true, false, ◌&&◌, Option, none, some, List, [], ◌∷◌,
  if◌then◌else◌, eqb, any, ◌==◌,
}
use sep.Core.Errors.{Error, Result, ok, err, duplicate_key_error}
use sep.Store.Session.{Exec, pure, ◌>>=◌, ◌>>◌}
use sep.Agents.Runtime.{RunManifest, Budget, Counters, AgentProgram, AgentRuntime}
use sep.Agents.Runtime.Choice.{Policy, Choice, next_action, exhausted}

-- `state` is the dumped state; its envelope has the counters beside it.
pub record StepRow (J : Type 0) : Type 0 where
  pub run_id : String
  pub step : ℕ
  pub policy : Policy
  pub action : J
  pub observation : J
  pub state : String
  pub counters : Counters

pub record ResultRow : Type 0 where
  pub run_id : String
  pub result : String

pub record Tables (J : Type 0) : Type 0 where
  pub runs : List RunManifest
  pub steps : List (StepRow J)
  pub results : List ResultRow

-- The store of the runtime, if it has one, and the world outside it.
pub record World (W J : Type 0) : Type 0 where
  pub store : Option (Tables J)
  pub outer : W

-- What pydantic does with a program's states and results.
pub record Models (S R : Type 0) : Type 0 where
  pub dump_state : S → String
  pub validate_state : String → Result S
  pub dump_result : R → String
  pub validate_result : String → Result R

unfoldable pub outside : {W J A : Type 0} → Exec W A → Exec (World W J) A
outside m world = let (r, w) = m world.outer in (r, record world { outer = w })

-- What one pass of the loop leaves.
pub data Pass (S : Type 0) : Type 0 where
  ended : S → Counters → Pass S
  going : S → Counters → Pass S

module _ {J : Type 0} where
  pub is_step : String → ℕ → StepRow J → Bool
  is_step run_id step row = row.run_id == run_id && eqb row.step step

  -- INSERT INTO agent_steps, whose primary key is (run_id, step)
  unfoldable pub insert_step : StepRow J → Tables J → Result (Unit {0}) × Tables J
  unfolding is_step
  insert_step row tables =
      if any (is_step row.run_id row.step) tables.steps
      then (err duplicate_key_error, tables)
      else (ok tt, record tables { steps = row ∷ tables.steps })

  unfoldable pub in_store :
      {W : Type 0}
      → Option (Tables J)
      → (Tables J → Result (Unit {0}) × Tables J)
      → Exec (World W J) (Unit {0})
  in_store none write world = (ok tt, world)
  in_store (some tables) write world =
      let (r, tables') = write tables in (r, record world { store = some tables' })

  -- A write, which a runtime without a store leaves out.
  unfoldable pub stored :
      {W : Type 0} → (Tables J → Result (Unit {0}) × Tables J) → Exec (World W J) (Unit {0})
  unfolding in_store
  stored write world = in_store world.store write world

module _ {W S R J : Type 0} (runtime : AgentRuntime W J) (program : AgentProgram W S R J)
    (models : Models S R) (run_id : String) where
  abbrev pub step_row : Choice J → J → S → Counters → StepRow J
  step_row choice observation state counters = record {
    run_id = run_id;
    step = counters.steps;
    policy = choice.policy;
    action = choice.action;
    observation = observation;
    state = models.dump_state state;
    counters = counters;
  }

  unfoldable pub checkpoint : Choice J → J → S → Counters → Exec (World W J) (Unit {0})
  unfolding insert_step stored
  checkpoint choice observation state counters =
      stored (insert_step (step_row choice observation state counters))

  abbrev pub stepped : Counters → J → Counters
  stepped counters observation = record counters {
    steps = counters.steps + 1;
    tool_calls = counters.tool_calls + program.tool_call observation;
  }

  pub finish_step : Choice J → S × J → Exec (World W J) (Pass S)
  unfolding checkpoint
  finish_step choice (state, observation) =
      let counters = stepped choice.counters observation in
      checkpoint choice observation state counters >> pure (going state counters)

  pub act : S → Choice J → Exec (World W J) (Pass S)
  unfolding finish_step outside
  act state choice = do
    result ← outside (program.apply state choice.action choice.counters.steps)
    finish_step choice result

  pub step : S → Counters → Option String → Exec (World W J) (Pass S)
  unfolding act outside next_action
  step state counters (some reason) = pure (ended (program.exhaust state reason) counters)
  step state counters none = do
    choice ← outside (next_action runtime program state counters)
    act state choice

  -- One pass of the loop's body, behind its test.
  unfoldable pub pass : ℕ → S → Counters → Exec (World W J) (Pass S)
  unfolding step outside exhausted
  pass started state counters =
      if program.done state
      then pure (ended state counters)
      else do reason ← outside (exhausted runtime counters started); step state counters reason

  -- What the loop makes of a pass; `again` is the rest of the loop.
  unfoldable pub follow :
      (S → Counters → World W J → Option (Result (S × Counters) × World W J))
      → Result (Pass S) × World W J
      → Option (Result (S × Counters) × World W J)
  follow again (ok (going state counters), world) = again state counters world
  follow again (ok (ended state counters), world) = some (ok (state, counters), world)
  follow again (err e, world) = some (err e, world)

  -- `none` means that the fuel ran out.
  unfoldable pub loop :
      ℕ → ℕ → S → Counters → World W J → Option (Result (S × Counters) × World W J)
  unfolding pass follow
  loop zero started state counters world = none
  loop (suc fuel) started state counters world =
      follow (loop fuel started) (pass started state counters world)
