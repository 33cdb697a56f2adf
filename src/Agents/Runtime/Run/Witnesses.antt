-- ===== src/Agents/Runtime/Run/Witnesses.antt =====
-- The theorems about runs at a concrete program. The world is the time; the model answers the first
-- call of a step with prose and the second one with an action.
use sep.Base.{
  ℕ, ◌+◌, ◌≡◌, refl, String, true, false, none, some, [], ◌∷◌, if◌then◌else◌, eqb, ◌==◌, ◌%◌, arith,
}
use sep.Core.Errors.{ok}
use sep.Store.Session.{pure, ◌>>=◌}
use sep.Agents.Gateway.{ModelGateway}
use sep.Agents.Runtime.{
  Counters, AgentProgram, AgentRuntime, RunManifest, accepted, rejected, json_decode_error,
  invalid_reply,
}
use sep.Agents.Runtime.Choice.{llm, playbook_fallback}
use sep.Agents.Runtime.Loop.{World, Tables, Models, going, pass, loop}
use sep.Agents.Runtime.Run.{no_counters, RunOutcome, run, run_as, replay_of, conclude}
use sep.Agents.Runtime.Manifest.{Hashes, Surroundings, manifest_of}
use sep.Agents.Runtime.Run.Limits.{RunWithin, run-Ended}
use sep.Agents.Runtime.Run.Replay.{run-replayed}
use sep.Agents.Runtime.Run.Resume.{Running, pass-resumes}

abbrev model : ModelGateway ℕ
model = record {
  model_id = "qwen";
  complete = λ _ w. (
    ok (record {
      text = if eqb (w % 2) 0 then "well" else "1";
      model_id = "qwen";
      cached = false;
      prompt_tokens = none;
      completion_tokens = none;
    }),
    w + 1,
  );
}

abbrev runtime : AgentRuntime ℕ ℕ
runtime = record {
  gateway = some model;
  enabled = true;
  llm_suspended = false;
  budget = record { max_steps = 4; max_tool_calls = 4; max_model_calls = 3; max_seconds = 60 };
  max_prompt_chars = 100;
  max_output_tokens = 10;
  clock = λ w. (w, w);
  loads_action = λ t. ok (if t == "1" then accepted 1 else rejected json_decode_error);
  codec = record { canonical_json = λ _. "{}"; field_json = λ _. ""; loads = λ _. [] };
}

-- Two steps: open, half, done.
abbrev program : AgentProgram ℕ String String ℕ
program = record {
  name = "investigator";
  version = "1";
  prompt = record { prompt_id = "investigate"; version = "1"; system = "" };
  start = λ _. pure "open";
  playbook = λ _. pure 0;
  observe = λ _. pure [];
  parse = λ a. ok (accepted a);
  needs_playbook = none;
  apply = λ s a n w. (ok (if s == "open" then "half" else "done", a), w);
  tool_call = λ _. 1;
  done = λ s. s == "done";
  exhaust = λ _ reason. reason;
  finalize = λ s _ _. pure s;
}

abbrev models : Models String String
models = record {
  dump_state = λ s. s;
  validate_state = λ s. ok s;
  dump_result = λ r. r;
  validate_result = λ r. ok r;
}

abbrev hashes : Hashes
hashes = record {
  content_hash = λ key. key.subject;
  stable_id = λ key. key;
  digest = λ prompt. prompt.version;
}

abbrev around : Surroundings
around = record {
  tool_schema_version = "1";
  config_version = "1";
  config_fingerprint = "f";
  snapshot_id = "S";
  policy_bundle_id = "BUNDLE-0001";
  as_of = "2024";
  user_id = "u";
  desks = [];
  person_data = false;
}

abbrev manifest : RunManifest
manifest = manifest_of hashes around runtime program "EP-1" []

abbrev no_rows : Tables ℕ
no_rows = record { runs = []; steps = []; results = [] }

abbrev before : World ℕ ℕ
before = record { store = some no_rows; outer = 0 }

run-Ended_example :
    RunWithin runtime program models manifest
      (λ _. omega arith)
      (run runtime program models hashes around "EP-1" [] before)
run-Ended_example =
    run-Ended runtime program models hashes around (λ _. omega arith) "EP-1" [] before tt

-- After one step, in which the model was asked to repair its reply.
abbrev one_step : Counters
one_step = record no_counters {
  steps = 1;
  tool_calls = 1;
  model_calls = 2;
  invalid_replies = 1;
  repairs = 1;
}

-- After both: the last call of the budget was spent on a reply that is no action.
abbrev two_steps : Counters
two_steps = record one_step {
  steps = 2;
  tool_calls = 2;
  model_calls = 3;
  fallbacks = 1;
  invalid_replies = 2;
  model_errors = invalid_reply json_decode_error ∷ [];
}

abbrev started_rows : Tables ℕ
started_rows = record no_rows { runs = manifest ∷ [] }

abbrev first_rows : Tables ℕ
first_rows = record started_rows {
  steps =
      record {
        run_id = "EP-1";
        step = 1;
        policy = llm;
        action = 1;
        observation = 1;
        state = "half";
        counters = one_step;
      }
      ∷ [];
}

abbrev last_rows : Tables ℕ
last_rows = record first_rows {
  steps =
      record {
        run_id = "EP-1";
        step = 2;
        policy = playbook_fallback;
        action = 0;
        observation = 0;
        state = "done";
        counters = two_steps;
      }
      ∷ first_rows.steps;
  results = record { run_id = "EP-1"; result = "done" } ∷ [];
}

abbrev ended_outcome : RunOutcome String
ended_outcome = record {
  result = "done";
  manifest = manifest;
  replayed = false;
  resumed = false;
  counters = two_steps;
}

abbrev finished : World ℕ ℕ
finished = record { store = some last_rows; outer = 3 }

first_run :
    run runtime program models hashes around "EP-1" [] before ≡ some (ok ended_outcome, finished)
unfolding run ◌>>=◌
first_run = refl

run-replayed_example :
    run runtime program models hashes around "EP-1" [] (record finished { outer = 70 })
    ≡ some (ok (replay_of runtime program models manifest "done"), record finished { outer = 70 })
run-replayed_example =
    run-replayed runtime program models hashes around (λ _. refl) "EP-1" [] before finished
      ended_outcome last_rows first_run refl 70

abbrev halfway : World ℕ ℕ
halfway = record { store = some first_rows; outer = 2 }

first_pass :
    pass runtime program models "EP-1" 0 "open" no_counters
      (record { store = some started_rows; outer = 0 })
    ≡ (ok (going "half" one_step), halfway)
unfolding pass ◌>>=◌ manifest_of
first_pass = refl

under_way : Running "EP-1" no_counters started_rows
unfolding manifest_of
under_way = record { entered = refl; unfinished = refl; up_to = tt }

pass-resumes_example :
    ((tables' : Tables ℕ) × (halfway.store ≡ some tables') × Running "EP-1" one_step tables')
    × ((w : ℕ)
        → run_as runtime program models manifest "EP-1" (record halfway { outer = w })
          ≡ conclude runtime program models manifest true (
              loop runtime program models "EP-1" 5 w "half" one_step
                (record halfway { outer = w })))
unfolding manifest_of
pass-resumes_example =
    pass-resumes runtime program models manifest (λ _. refl) "EP-1" started_rows no_counters
      one_step "open" "half" 0 (record { store = some started_rows; outer = 0 }) halfway
      (omega arith) under_way refl first_pass
