-- ===== src/Agents/Runtime/Run.antt =====
-- agents/runtime.py: `AgentRuntime.run`, with `_completed`, `_resume_or_start` and `_finish`. Metrics,
-- the log and tracing are left out.
mod Witnesses
pub mod Limits
pub mod Replay
pub mod Resume
use sep.Base.{
  ℕ, zero, suc, ◌+◌, String, Bool, true, false, Option, none, some, List, [], ◌∷◌, if◌then◌else◌,
  ltb, any, find, filter, ◌==◌,
}
use sep.Base.Sort.{sorted_set}
use sep.Core.Errors.{Error, Result, ok, err, duplicate_key_error}
use sep.Store.Session.{Exec, pure, lift, ◌>>=◌, ◌>>◌}
use sep.Agents.Gateway.{ModelGateway}
use sep.Agents.Runtime.{RunManifest, Counters, AgentProgram, AgentRuntime, PromptTemplate}
use sep.Agents.Runtime.Manifest.{Hashes, Surroundings, manifest_of}
use sep.Agents.Runtime.Loop.{StepRow, ResultRow, Tables, World, Models, outside, stored, loop}

pub record RunOutcome (R : Type 0) : Type 0 where
  pub result : R
  pub manifest : RunManifest
  pub replayed : Bool
  pub resumed : Bool
  pub counters : Counters

-- `Counters()`
abbrev pub no_counters : Counters
no_counters = record {
  steps = 0;
  tool_calls = 0;
  model_calls = 0;
  fallbacks = 0;
  invalid_replies = 0;
  repairs = 0;
  model_errors = [];
}

abbrev pub same_result : String → ResultRow → Bool
same_result run_id row = row.run_id == run_id

abbrev pub same_run : String → RunManifest → Bool
same_run run_id row = row.run_id == run_id

module _ {J : Type 0} where
  abbrev pub of_run : String → StepRow J → Bool
  of_run run_id row = row.run_id == run_id

  -- ORDER BY step DESC LIMIT 1
  abbrev pub later : StepRow J → Option (StepRow J) → Option (StepRow J)
  later row none = some row
  later row (some other) = if ltb row.step other.step then some other else some row

  pub latest : List (StepRow J) → Option (StepRow J)
  latest [] = none
  latest (row ∷ rows) = later row (latest rows)

  -- INSERT INTO agent_runs
  pub insert_run : RunManifest → Tables J → Result (Unit {0}) × Tables J
  insert_run manifest tables =
      if any (same_run manifest.run_id) tables.runs
      then (err duplicate_key_error, tables)
      else (ok tt, record tables { runs = manifest ∷ tables.runs })

  -- INSERT INTO agent_run_results
  pub insert_result : ResultRow → Tables J → Result (Unit {0}) × Tables J
  insert_result row tables =
      if any (same_result row.run_id) tables.results
      then (err duplicate_key_error, tables)
      else (ok tt, record tables { results = row ∷ tables.results })

pub record Started (S : Type 0) : Type 0 where
  pub state : S
  pub counters : Counters
  pub resumed : Bool

pub data Begun (S R : Type 0) : Type 0 where
  recorded : R → Begun S R
  fresh : Started S → ℕ → Begun S R

module _ {W S R J : Type 0} (runtime : AgentRuntime W J) (program : AgentProgram W S R J)
    (models : Models S R) where
  pub result_of : Option ResultRow → Exec (World W J) (Option R)
  result_of none = pure none
  result_of (some row) = do value ← lift (models.validate_result row.result); pure (some value)

  pub recorded_in : String → Option (Tables J) → Exec (World W J) (Option R)
  unfolding result_of
  recorded_in run_id none = pure none
  recorded_in run_id (some tables) = result_of (find (same_result run_id) tables.results)

  pub completed : String → Exec (World W J) (Option R)
  unfolding recorded_in
  completed run_id world = recorded_in run_id world.store world

  pub anew : String → Bool → Exec (World W J) (Started S)
  unfolding outside
  anew subject resumed = do
    state ← outside (program.start subject)
    pure (record { state = state; counters = no_counters; resumed = resumed })

  -- From the newest checkpoint of a run that was started, or from its beginning.
  pub resume : String → Option (StepRow J) → Exec (World W J) (Started S)
  unfolding anew
  resume subject none = anew subject true
  resume subject (some row) = do
    state ← lift (models.validate_state row.state)
    pure (record { state = state; counters = row.counters; resumed = true })

  pub start_in : RunManifest → String → Option (Tables J) → Exec (World W J) (Started S)
  unfolding resume anew latest insert_run stored
  start_in manifest subject none = anew subject false
  start_in manifest subject (some tables) =
      if any (same_run manifest.run_id) tables.runs
      then resume subject (latest (filter (of_run manifest.run_id) tables.steps))
      else stored (insert_run manifest) >> anew subject false

  pub resume_or_start : RunManifest → String → Exec (World W J) (Started S)
  unfolding start_in
  resume_or_start manifest subject world = start_in manifest subject world.store world

  pub finish_run : String → R → Exec (World W J) (Unit {0})
  unfolding insert_result stored
  finish_run run_id result =
      stored (insert_result (record { run_id = run_id; result = models.dump_result result }))

  pub begin_with : RunManifest → String → Option R → Exec (World W J) (Begun S R)
  unfolding resume_or_start outside
  begin_with manifest subject (some result) = pure (recorded result)
  begin_with manifest subject none = do
    started ← resume_or_start manifest subject
    now ← outside (λ w. let (now, w') = runtime.clock w in (ok now, w'))
    pure (fresh started now)

  -- What comes before the loop.
  pub begin : RunManifest → String → Exec (World W J) (Begun S R)
  unfolding completed begin_with
  begin manifest subject = do result ← completed manifest.run_id; begin_with manifest subject result

  -- What comes behind it.
  pub wrap_up : RunManifest → Bool → S × Counters → Exec (World W J) (RunOutcome R)
  unfolding finish_run outside
  wrap_up manifest resumed (state, counters) = do
    result ← outside (program.finalize state manifest.run_id counters)
    finish_run manifest.run_id result
    pure (record {
      result = result;
      manifest = manifest;
      replayed = false;
      resumed = resumed;
      counters = counters;
    })

  pub conclude :
      RunManifest
      → Bool
      → Option (Result (S × Counters) × World W J)
      → Option (Result (RunOutcome R) × World W J)
  unfolding wrap_up
  conclude manifest resumed none = none
  conclude manifest resumed (some (err e, world)) = some (err e, world)
  conclude manifest resumed (some (ok final, world)) = some (wrap_up manifest resumed final world)

  abbrev pub replay_of : RunManifest → R → RunOutcome R
  replay_of manifest result = record {
    result = result;
    manifest = manifest;
    replayed = true;
    resumed = false;
    counters = no_counters;
  }

  pub proceed_with :
      RunManifest → Result (Begun S R) × World W J → Option (Result (RunOutcome R) × World W J)
  unfolding conclude loop
  proceed_with manifest (err e, world) = some (err e, world)
  proceed_with manifest (ok (recorded result), world) = some (ok (replay_of manifest result), world)
  proceed_with manifest (ok (fresh started now), world) = conclude manifest started.resumed (
      loop runtime program models manifest.run_id (runtime.budget.max_steps + 1) now started.state
        started.counters world)

  -- A pass of the loop is a step at least, so that there are never more passes than steps in the
  -- budget and one.
  unfoldable pub run_as :
      RunManifest → String → World W J → Option (Result (RunOutcome R) × World W J)
  unfolding begin proceed_with
  run_as manifest subject world = proceed_with manifest (begin manifest subject world)

  unfoldable pub run :
      Hashes
      → Surroundings
      → String
      → List (String × String)
      → World W J
      → Option (Result (RunOutcome R) × World W J)
  unfolding run_as manifest_of
  run hashes around subject extra world =
      run_as (manifest_of hashes around runtime program subject extra) subject world
