-- ===== src/Agents/Runtime/Loop/Checkpoint.antt =====
-- agents/runtime.py: the checkpoint of a pass of the loop that goes on.
use sep.Base.{
  ℕ, ◌+◌, ◌≤◌, ◌≡◌, refl, sym, ap, ◌∙◌, String, inl, inr, Option, none, some, ◌∷◌, Bool-cases, any,
  arith,
}
use sep.Core.Errors.{ok}
use sep.Store.Session.{Exec}
use sep.Store.Session.Keeps.{>>=-eq-ok}
use sep.Agents.Runtime.{Counters, AgentProgram, AgentRuntime}
use sep.Agents.Runtime.Choice.{Choice, next_action, exhausted}
use sep.Agents.Runtime.Choice.Budgets.{next_action-Settled}
use sep.Agents.Runtime.Loop.{
  StepRow, Tables, World, Models, outside, going, insert_step, is_step, in_store, stored, step_row,
  checkpoint, stepped, finish_step, act, step, pass,
}
use sep.Agents.Runtime.Loop.Limits.{Within}

-- The checkpoints of the run stand under steps up to this one.
abbrev pub UpTo : {J : Type 0} → String → ℕ → StepRow J → Type 0
UpTo run_id n row = row.run_id ≡ run_id → row.step ≤ n

-- What the store held, with the checkpoint of this state and these counters put on top.
pub record Checkpointed {S R J : Type 0} (models : Models S R) (run_id : String) (tables : Tables J)
    (state : S) (c : Counters) (store : Option (Tables J)) : Type 0 where
  pub row : StepRow J
  pub of_run : row.run_id ≡ run_id
  pub of_step : row.step ≡ c.steps
  pub of_state : row.state ≡ models.dump_state state
  pub of_counters : row.counters ≡ c
  pub on_top : store ≡ some (record tables { steps = row ∷ tables.steps })

module _ {W S R J : Type 0} (runtime : AgentRuntime W J) (program : AgentProgram W S R J)
    (models : Models S R) (run_id : String) (tables : Tables J) where
  outside-store :
      {A : Type 0} (m : Exec W A) (world world' : World W J) (a : A)
      → outside m world ≡ (ok a, world')
      → world'.store ≡ world.store
  unfolding outside
  outside-store m world world' a h = cc

  insert_step-top :
      (row : StepRow J) (after : Tables J)
      → insert_step row tables ≡ (ok tt, after)
      → after ≡ record tables { steps = row ∷ tables.steps }
  unfolding insert_step
  insert_step-top row after h = elim (Bool-cases (any (is_step row.run_id row.step) tables.steps)) [
    | inl taken ↦ let e = rw taken at h in absurd (ground (arith, e))
    | inr free ↦ let e = rw free at h in cc
  ]

  in_store-top :
      (row : StepRow J) (st : Option (Tables J)) (world world' : World W J)
      → st ≡ some tables
      → in_store st (insert_step row) world ≡ (ok tt, world')
      → world'.store ≡ some (record tables { steps = row ∷ tables.steps })
  unfolding in_store
  in_store-top row none world world' at h = cc
  in_store-top row (some t) world world' at h =
      let same : t ≡ tables = cc in
      let written = insert_step row t in
      let e : written ≡ (ok tt, written.1) = cc in
      let e' : world'.store ≡ some written.1 = cc in
      let e'' : insert_step row tables ≡ (ok tt, written.1) = ap (insert_step row) (sym same) ∙ e in
      e' ∙ ap (λ (t : Tables J). some t) (insert_step-top row written.1 e'')

  finish_step-Checkpointed :
      (choice : Choice J) (result : S × J) (state : S) (d : Counters) (world world' : World W J)
      → world.store ≡ some tables
      → finish_step runtime program models run_id choice result world ≡ (ok (going state d), world')
      → Checkpointed models run_id tables state d world'.store
        × (d.steps ≡ choice.counters.steps + 1)
  unfolding finish_step checkpoint stored
  finish_step-Checkpointed choice (state', o) state d world world' at h =
      let c = stepped runtime program models run_id choice.counters o in
      let (u, w1, e1, h1) =
        >>=-eq-ok (checkpoint runtime program models run_id choice o state' c) _ world h in
      let same : w1 ≡ world' = cc in
      let state_same : state' ≡ state = cc in
      let counters_same : c ≡ d = cc in
      let row = step_row runtime program models run_id choice o state' c in
      let top = in_store-top row world.store world w1 at e1 in
      (
        record {
          row = row;
          of_run = refl;
          of_step = ap (λ (x : Counters). x.steps) counters_same;
          of_state = ap models.dump_state state_same;
          of_counters = counters_same;
          on_top = ap (λ (w : World W J). w.store) (sym same) ∙ top;
        },
        omega (arith, ap (λ (x : Counters). x.steps) counters_same),
      )

  act-Checkpointed :
      (before state : S) (choice : Choice J) (d : Counters) (world world' : World W J)
      → world.store ≡ some tables
      → act runtime program models run_id before choice world ≡ (ok (going state d), world')
      → Checkpointed models run_id tables state d world'.store
        × (d.steps ≡ choice.counters.steps + 1)
  unfolding act
  act-Checkpointed before state choice d world world' at h =
      let applied = outside (program.apply before choice.action choice.counters.steps) in
      let (result, w1, e1, h1) = >>=-eq-ok applied _ world h in
      finish_step-Checkpointed choice result state d w1 world'
        (outside-store (program.apply before choice.action choice.counters.steps) world w1 result e1
          ∙ at)
        h1

  choice-steps :
      (c : Counters) (state : S) (choice : Choice J) (world w1 : World W J)
      → Within runtime.budget c
      → outside (next_action runtime program state c) world ≡ (ok choice, w1)
      → choice.counters.steps ≡ c.steps
  unfolding outside
  choice-steps c state choice world w1 h e =
      ((next_action-Settled runtime program c.tool_calls c.steps state c (omega arith)).returned
        world.outer (next_action runtime program state c world.outer).1 choice (cc)).same_steps

  step-Checkpointed :
      (c : Counters) (before state : S) (reason : Option String) (d : Counters)
      (world world' : World W J)
      → Within runtime.budget c
      → world.store ≡ some tables
      → step runtime program models run_id before c reason world ≡ (ok (going state d), world')
      → Checkpointed models run_id tables state d world'.store × (d.steps ≡ c.steps + 1)
  unfolding step
  step-Checkpointed c before state (some reason) d world world' within at h = cc
  step-Checkpointed c before state none d world world' within at h =
      let (choice, w1, e1, h1) =
        >>=-eq-ok (outside (next_action runtime program before c)) _ world h in
      let at1 = outside-store (next_action runtime program before c) world w1 choice e1 ∙ at in
      let (top, one_more) = act-Checkpointed before state choice d w1 world' at1 h1 in
      (top, omega (arith, one_more, choice-steps c before choice world w1 within e1))

  pub pass-Checkpointed :
      (c : Counters) (started : ℕ) (before state : S) (d : Counters) (world world' : World W J)
      → Within runtime.budget c
      → world.store ≡ some tables
      → pass runtime program models run_id started before c world ≡ (ok (going state d), world')
      → Checkpointed models run_id tables state d world'.store × (d.steps ≡ c.steps + 1)
  unfolding pass
  pass-Checkpointed c started before state d world world' within at h =
      elim (Bool-cases (program.done before)) [
        | inl over ↦ let e = rw over at h in absurd (ground (arith, e))
        | inr more ↦
            let e = rw more at h in
            let (reason, w1, e1, h1) =
              >>=-eq-ok (outside (exhausted runtime c started)) _ world e in
            step-Checkpointed c before state reason d w1 world' within
              (outside-store (exhausted runtime c started) world w1 reason e1 ∙ at) h1
      ]
