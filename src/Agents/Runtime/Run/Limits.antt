-- ===== src/Agents/Runtime/Run/Limits.antt =====
-- agents/runtime.py: the end of a run, and its counters.
use sep.Base.{
  ◌+◌, ◌≤◌, ◌≡◌, refl, String, Bool, true, false, inl, inr, Option, none, some, List, [], ◌∷◌, ltb,
  Bool-cases, any, filter, eq_iff, All, ◌==◌, arith,
}
use sep.Core.Errors.{Result, ok, err}
use sep.Store.Session.{Exec}
use sep.Store.Session.Yields.{Yields, Yields-pure, Yields-if, Yields-lift, Yields-then}
use sep.Agents.Runtime.{RunManifest, Counters, AgentProgram, AgentRuntime}
use sep.Agents.Runtime.Loop.{StepRow, ResultRow, Tables, World, Models, outside, stored}
use sep.Agents.Runtime.Loop.Limits.{
  Within, RowWithin, TablesWithin, Checked, outside-Yields, stored-Yields, Ended, loop-Ended,
}
use sep.Agents.Runtime.Run.{
  RunOutcome, of_run, later, latest, insert_run, insert_result, same_run, same_result, Started,
  Begun, recorded, fresh, result_of, recorded_in, completed, anew, resume, start_in,
  resume_or_start, finish_run, begin_with, begin, wrap_up, conclude, proceed_with, run_as, run,
}
use sep.Agents.Runtime.Manifest.{Hashes, Surroundings, manifest_of}

module _ {W S R J : Type 0} (runtime : AgentRuntime W J) (program : AgentProgram W S R J)
    (models : Models S R) (manifest : RunManifest)
    (one_tool : (o : J) → program.tool_call o ≤ 1) where
  abbrev Good : World W J → Type 0
  Good = Checked runtime program models manifest.run_id one_tool

  abbrev Whatever : {A : Type 0} → A → Type 0
  Whatever a = Unit {0}

  outside-Good : {A : Type 0} (m : Exec W A) → Yields Good Whatever (outside {J = J} m)
  outside-Good m =
      outside-Yields runtime program models manifest.run_id one_tool Whatever m
        (record { returned = λ _ _ _ _. tt })

  result_of-Good :
      (row : Option ResultRow) → Yields Good Whatever (result_of runtime program models row)
  unfolding result_of
  result_of-Good none = Yields-pure Good Whatever _ tt
  result_of-Good (some row) =
      Yields-then Good Whatever Whatever _ _ (Yields-lift Good Whatever _ (λ _ _. tt))
        (λ value _. Yields-pure Good Whatever _ tt)

  recorded_in-Good :
      (st : Option (Tables J))
      → Yields Good Whatever (recorded_in runtime program models manifest.run_id st)
  unfolding recorded_in
  recorded_in-Good none = Yields-pure Good Whatever _ tt
  recorded_in-Good (some tables) = result_of-Good _

  -- A start is within the budget: it is at zero, or at a checkpoint.
  abbrev StartWithin : Started S → Type 0
  StartWithin started = Within runtime.budget started.counters

  anew-Good :
      (subject : String) (resumed : Bool)
      → Yields Good StartWithin (anew runtime program models subject resumed)
  unfolding anew
  anew-Good subject resumed =
      Yields-then Good Whatever StartWithin _ _ (outside-Good (program.start subject))
        (λ state _. Yields-pure Good StartWithin _ (omega arith))

  abbrev RowsWithin : Option (StepRow J) → Type 0
  RowsWithin none = Unit {0}
  RowsWithin (some row) = Within runtime.budget row.counters

  later-Within :
      (row : StepRow J) (other : Option (StepRow J))
      → Within runtime.budget row.counters
      → RowsWithin other
      → RowsWithin (later row other)
  later-Within row none h k = h
  later-Within row (some other) h k = elim (Bool-cases (ltb row.step other.step)) [
    | inl before ↦ rw before k
    | inr behind ↦ rw behind h
  ]

  latest-Within :
      (rows : List (StepRow J))
      → All (RowWithin runtime.budget manifest.run_id) rows
      → RowsWithin (latest (filter (of_run manifest.run_id) rows))
  unfolding latest
  latest-Within [] h = tt
  latest-Within (row ∷ rows) (h, hs) = elim (Bool-cases (row.run_id == manifest.run_id)) [
    | inl mine ↦ rw mine (
        later-Within row _ (h ((eq_iff row.run_id manifest.run_id).0 mine)).1
          (latest-Within rows hs))
    | inr not_mine ↦ rw not_mine (latest-Within rows hs)
  ]

  resume-Good :
      (subject : String) (row : Option (StepRow J))
      → RowsWithin row
      → Yields Good StartWithin (resume runtime program models subject row)
  unfolding resume
  resume-Good subject none h = anew-Good subject true
  resume-Good subject (some row) h =
      Yields-then Good Whatever StartWithin _ _ (Yields-lift Good Whatever _ (λ _ _. tt))
        (λ state _. Yields-pure Good StartWithin _ h)

  insert_run-Good : Yields Good Whatever (stored (insert_run manifest))
  unfolding insert_run
  insert_run-Good = stored-Yields runtime program models manifest.run_id one_tool _ (λ tables i.
      elim (Bool-cases (any (same_run manifest.run_id) tables.runs)) [
        | inl taken ↦ rw taken i
        | inr free ↦ rw free i
      ])

  start_in-Good :
      (subject : String) (st : Option (Tables J))
      → TablesWithin runtime.budget manifest.run_id st
      → Yields Good StartWithin (start_in runtime program models manifest subject st)
  unfolding start_in
  start_in-Good subject none i = anew-Good subject false
  start_in-Good subject (some tables) i =
      Yields-if Good StartWithin (any (same_run manifest.run_id) tables.runs) _ _
        (λ _. resume-Good subject _ (latest-Within tables.steps i))
        (λ _.
          Yields-then Good Whatever StartWithin _ _ insert_run-Good
            (λ _ _. anew-Good subject false))

  resume_or_start-Good :
      (subject : String)
      → Yields Good StartWithin (resume_or_start runtime program models manifest subject)
  unfolding resume_or_start
  resume_or_start-Good subject = record {
    kept = λ s i. (start_in-Good subject s.store i).kept s i;
    value = λ s s' a i h. (start_in-Good subject s.store i).value s s' a i h;
  }

  completed-Good : Yields Good Whatever (completed runtime program models manifest.run_id)
  unfolding completed
  completed-Good = record {
    kept = λ s i. (recorded_in-Good s.store).kept s i;
    value = λ _ _ _ _ _. tt;
  }

  abbrev BegunWithin : Begun S R → Type 0
  BegunWithin (recorded result) = Unit {0}
  BegunWithin (fresh started now) = StartWithin started

  begin_with-Good :
      (subject : String) (result : Option R)
      → Yields Good BegunWithin (begin_with runtime program models manifest subject result)
  unfolding begin_with
  begin_with-Good subject (some result) = Yields-pure Good BegunWithin _ tt
  begin_with-Good subject none =
      Yields-then Good StartWithin BegunWithin _ _ (resume_or_start-Good subject) (λ started h.
        Yields-then Good Whatever BegunWithin _ _ (outside-Good _)
          (λ now _. Yields-pure Good BegunWithin _ h))

  begin-Good :
      (subject : String) → Yields Good BegunWithin (begin runtime program models manifest subject)
  unfolding begin
  begin-Good subject =
      Yields-then Good Whatever BegunWithin _ _ completed-Good
        (λ result _. begin_with-Good subject result)

  abbrev pub OutcomeWithin : RunOutcome R → Type 0
  OutcomeWithin outcome = Within runtime.budget outcome.counters

  finish_run-Good :
      (result : R) → Yields Good Whatever (finish_run runtime program models manifest.run_id result)
  unfolding finish_run insert_result
  finish_run-Good result =
      stored-Yields runtime program models manifest.run_id one_tool _ (λ tables i.
        elim (Bool-cases (any (same_result manifest.run_id) tables.results)) [
          | inl taken ↦ rw taken i
          | inr free ↦ rw free i
        ])

  wrap_up-Good :
      (resumed : Bool) (state : S) (c : Counters)
      → Within runtime.budget c
      → Yields Good OutcomeWithin (wrap_up runtime program models manifest resumed (state, c))
  unfolding wrap_up
  wrap_up-Good resumed state c h =
      Yields-then Good Whatever OutcomeWithin _ _ (outside-Good _) (λ result _.
        Yields-then Good Whatever OutcomeWithin _ _ (finish_run-Good result)
          (λ _ _. Yields-pure Good OutcomeWithin _ h))

  -- The run came to an end; every checkpoint is within the budget, and so is what is returned.
  abbrev pub RunWithin : Option (Result (RunOutcome R) × World W J) → Type 0
  RunWithin none = ⊥
  RunWithin (some (err e, world)) = Good world
  RunWithin (some (ok outcome, world)) = Good world × OutcomeWithin outcome

  ended_by :
      (r : Result (RunOutcome R)) (world : World W J)
      → Good world
      → ((o : RunOutcome R) → r ≡ ok o → OutcomeWithin o)
      → RunWithin (some (r, world))
  ended_by (err e) world i h = i
  ended_by (ok o) world i h = (i, h o refl)

  conclude-Good :
      (resumed : Bool) (out : Option (Result (S × Counters) × World W J))
      → Ended runtime program models manifest.run_id one_tool out
      → RunWithin (conclude runtime program models manifest resumed out)
  unfolding conclude
  conclude-Good resumed none h = absurd h
  conclude-Good resumed (some (err e, world)) h = h
  conclude-Good resumed (some (ok (state, c), world)) (i, h, over) =
      let y = wrap_up-Good resumed state c h in
      let out = wrap_up runtime program models manifest resumed (state, c) world in
      ended_by out.0 out.1 (y.kept world i) (λ o e. y.value world out.1 o i (cc))

  proceed_with-Good :
      (r : Result (Begun S R)) (world : World W J)
      → Good world
      → ((b : Begun S R) → r ≡ ok b → BegunWithin b)
      → RunWithin (proceed_with runtime program models manifest (r, world))
  unfolding proceed_with
  proceed_with-Good (err e) world i h = i
  proceed_with-Good (ok (recorded result)) world i h = (i, omega arith)
  proceed_with-Good (ok (fresh started now)) world i h = conclude-Good started.resumed _ (
      loop-Ended runtime program models manifest.run_id one_tool (runtime.budget.max_steps + 1) now
        started.state started.counters world (h (fresh started now) refl) (omega arith) i)

  pub run_as-Ended :
      (subject : String) (world : World W J)
      → Good world
      → RunWithin (run_as runtime program models manifest subject world)
  unfolding run_as
  run_as-Ended subject world i =
      let y = begin-Good subject in
      let out = begin runtime program models manifest subject world in
      proceed_with-Good out.0 out.1 (y.kept world i) (λ b e. y.value world out.1 b i (cc))

module _ {W S R J : Type 0} (runtime : AgentRuntime W J) (program : AgentProgram W S R J)
    (models : Models S R) (hashes : Hashes) (around : Surroundings)
    (one_tool : (o : J) → program.tool_call o ≤ 1) where
  -- Whatever the models, the tools and the clock do: a run comes to an end, by an exception or with
  -- an outcome. The counters of the outcome, and of every checkpoint of the run, are within the
  -- budget for steps, tool calls and model calls, with at most two model calls, one tool call and
  -- one fallback for each step, no more repairs than invalid replies and no more of those than model
  -- calls. A step reports at most one tool call, and the checkpoints that the run finds are within
  -- the budget too.
  pub run-Ended :
      (subject : String) (extra : List (String × String)) (world : World W J)
      → TablesWithin runtime.budget
          (manifest_of hashes around runtime program subject extra).run_id
          world.store
      → RunWithin runtime program models
          (manifest_of hashes around runtime program subject extra)
          one_tool
          (run runtime program models hashes around subject extra world)
  unfolding run
  run-Ended subject extra world h =
      run_as-Ended runtime program models (manifest_of hashes around runtime program subject extra)
        one_tool subject world h
