-- ===== src/Agents/Runtime/Run/Resume.antt =====
-- agents/runtime.py: a run that was broken off and is started again.
use sep.Base.{
  ℕ, ◌+◌, ◌≤◌, ◌<◌, ◌≡◌, refl, sym, ap, subst, ◌∙◌, String, true, inl, inr, Option, none, some,
  List, [], ◌∷◌, ltb, ltb→lt, Bool-cases, any, find, filter, eq_iff, eq_refl, ◌==◌, All, arith,
}
use sep.Core.Errors.{ok}
use sep.Store.Session.{proceed, ◌>>=◌}
use sep.Agents.Runtime.{RunManifest, Counters, AgentProgram, AgentRuntime}
use sep.Agents.Runtime.Loop.{StepRow, Tables, World, Models, outside, going, pass, loop}
use sep.Agents.Runtime.Loop.Limits.{Within}
use sep.Agents.Runtime.Loop.Checkpoint.{UpTo, Checkpointed, pass-Checkpointed}
use sep.Agents.Runtime.Run.{
  of_run, later, latest, same_run, same_result, Started, result_of, recorded_in, completed, resume,
  start_in, resume_or_start, begin_with, begin, conclude, proceed_with, run_as,
}

-- The run is entered in the store and has no result, and its checkpoints go up to these counters.
pub record Running {J : Type 0} (run_id : String) (c : Counters) (tables : Tables J) : Type 0 where
  pub entered : any (same_run run_id) tables.runs ≡ true
  pub unfinished : find (same_result run_id) tables.results ≡ none
  pub up_to : All (UpTo run_id c.steps) tables.steps

All-UpTo :
    {J : Type 0} (run_id : String) (m n : ℕ) (rows : List (StepRow J))
    → m ≤ n
    → All (UpTo run_id m) rows
    → All (UpTo run_id n) rows
All-UpTo run_id m n [] le h = tt
All-UpTo run_id m n (row ∷ rows) le (h, hs) =
    (λ mine. omega (arith, h mine), All-UpTo run_id m n rows le hs)

module _ {W S R J : Type 0} (runtime : AgentRuntime W J) (program : AgentProgram W S R J)
    (models : Models S R) (manifest : RunManifest)
    (round_trip : (state : S) → models.validate_state (models.dump_state state) ≡ ok state) where
  abbrev NotAbove : ℕ → Option (StepRow J) → Type 0
  NotAbove n none = Unit {0}
  NotAbove n (some row) = row.step ≤ n

  later-NotAbove :
      (n : ℕ) (row : StepRow J) (other : Option (StepRow J))
      → row.step ≤ n
      → NotAbove n other
      → NotAbove n (later row other)
  later-NotAbove n row none h k = h
  later-NotAbove n row (some other) h k = elim (Bool-cases (ltb row.step other.step)) [
    | inl before ↦ rw before k
    | inr behind ↦ rw behind h
  ]

  latest-NotAbove :
      (n : ℕ) (rows : List (StepRow J))
      → All (UpTo manifest.run_id n) rows
      → NotAbove n (latest (filter (of_run manifest.run_id) rows))
  unfolding latest
  latest-NotAbove n [] h = tt
  latest-NotAbove n (row ∷ rows) (h, hs) = elim (Bool-cases (row.run_id == manifest.run_id)) [
    | inl mine ↦ rw mine (
        later-NotAbove n row _ (h ((eq_iff row.run_id manifest.run_id).0 mine))
          (latest-NotAbove n rows hs))
    | inr not_mine ↦ rw not_mine (latest-NotAbove n rows hs)
  ]

  later-above :
      (n : ℕ) (row : StepRow J) (other : Option (StepRow J))
      → n < row.step
      → NotAbove n other
      → later row other ≡ some row
  later-above n row none h k = refl
  later-above n row (some other) h k = elim (Bool-cases (ltb row.step other.step)) [
    | inl before ↦ absurd (omega (arith, ltb→lt row.step other.step before))
    | inr behind ↦ rw behind refl
  ]

  module _ (tables : Tables J) (c d : Counters) (state : S)
      (running : Running manifest.run_id c tables) (one_more : d.steps ≡ c.steps + 1) where
    -- The newest checkpoint is the one on top.
    latest-top :
        (row : StepRow J)
        → row.run_id ≡ manifest.run_id
        → row.step ≡ d.steps
        → latest (filter (of_run manifest.run_id) (row ∷ tables.steps)) ≡ some row
    unfolding latest
    latest-top row mine of_step =
        let same : (row.run_id == manifest.run_id) ≡ true =
          ap (λ (k : String). k == manifest.run_id) mine ∙ eq_refl manifest.run_id in
        rw same (
          later-above c.steps row _ (omega (arith, of_step, one_more))
            (latest-NotAbove c.steps tables.steps running.up_to))

    abbrev resumed_start : Started S
    resumed_start = record { state = state; counters = d; resumed = true }

    resume-row :
        (subject : String) (row : StepRow J) (world : World W J)
        → row.state ≡ models.dump_state state
        → row.counters ≡ d
        → resume runtime program models subject (some row) world ≡ (ok resumed_start, world)
    unfolding resume ◌>>=◌ proceed
    resume-row subject row world of_state of_counters =
        let read : models.validate_state row.state ≡ ok state =
          ap models.validate_state of_state ∙ round_trip state in
        rw read
          (ap (λ (x : Counters). (ok (record resumed_start { counters = x }), world)) of_counters)

    module _ (subject : String) (store : Option (Tables J))
        (top : Checkpointed models manifest.run_id tables state d store) where
      abbrev after : Tables J
      after = record tables { steps = top.row ∷ tables.steps }

      start_in-top :
          (st : Option (Tables J)) (world : World W J)
          → st ≡ some after
          → start_in runtime program models manifest subject st world ≡ (ok resumed_start, world)
      unfolding start_in
      start_in-top none world at = cc
      start_in-top (some t) world at =
          let same : t ≡ after = cc in
          subst
            (λ (t : Tables J).
              start_in runtime program models manifest subject (some t) world
              ≡ (ok resumed_start, world))
            (sym same)
            (rw (running.entered, latest-top top.row top.of_run top.of_step)
              (resume-row subject top.row world top.of_state top.of_counters))

      recorded_in-top :
          (st : Option (Tables J)) (world : World W J)
          → st ≡ some after
          → recorded_in runtime program models manifest.run_id st world ≡ (ok none, world)
      unfolding recorded_in result_of
      recorded_in-top none world at = cc
      recorded_in-top (some t) world at =
          let e : find (same_result manifest.run_id) t.results ≡ none =
            ap
              (λ (o : Option (Tables J)). elim o [
                | none ↦ none
                | some u ↦ find (same_result manifest.run_id) u.results
              ])
              at
            ∙ running.unfinished in
          rw e refl

      -- Started again, in whatever world, with the store as it was left.
      run_as-top :
          (w : W)
          → run_as runtime program models manifest subject (record { store = store; outer = w })
            ≡ conclude runtime program models manifest true (
                loop runtime program models manifest.run_id
                  (runtime.budget.max_steps + 1)
                  (runtime.clock w).0
                  state
                  d
                  (record { store = store; outer = (runtime.clock w).1 }))
      unfolding run_as begin begin_with completed resume_or_start proceed_with ◌>>=◌ proceed outside
      run_as-top w =
          rw
            (
              recorded_in-top store (record { store = store; outer = w }) top.on_top,
              start_in-top store (record { store = store; outer = w }) top.on_top,
            )
            refl

      after-Running : Running manifest.run_id d after
      after-Running = record {
        entered = running.entered;
        unfinished = running.unfinished;
        up_to = (
          λ _. omega (arith, top.of_step),
          All-UpTo manifest.run_id c.steps d.steps tables.steps (omega (arith, one_more))
              running.up_to,
        );
      }

  -- A run that is under way goes on with a pass. Then it is under way with the new counters; and
  -- if it is broken off there and started again, at whatever later time and in whatever outer
  -- world, it takes up the loop in the state and with the counters that the pass left, marked as
  -- resumed. A state that was dumped is read back as it was.
  pub pass-resumes :
      (subject : String) (tables : Tables J) (c d : Counters) (before state : S) (started : ℕ)
      (world world' : World W J)
      → Within runtime.budget c
      → Running manifest.run_id c tables
      → world.store ≡ some tables
      → pass runtime program models manifest.run_id started before c world
        ≡ (ok (going state d), world')
      → ((tables' : Tables J) × (world'.store ≡ some tables') × Running manifest.run_id d tables')
        × ((w : W)
            → run_as runtime program models manifest subject (record world' { outer = w })
              ≡ conclude runtime program models manifest true (
                  loop runtime program models manifest.run_id
                    (runtime.budget.max_steps + 1)
                    (runtime.clock w).0
                    state
                    d
                    (record world' { outer = (runtime.clock w).1 })))
  pass-resumes subject tables c d before state started world world' within running at h =
      let (top, one_more) =
        pass-Checkpointed runtime program models manifest.run_id tables c started before state d
          world world' within at h in
      (
        (
          after tables c d state running one_more subject world'.store top,
          top.on_top,
          after-Running tables c d state running one_more subject world'.store top,
        ),
        run_as-top tables c d state running one_more subject world'.store top,
      )
