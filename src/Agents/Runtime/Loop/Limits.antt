-- ===== src/Agents/Runtime/Loop/Limits.antt =====
-- agents/runtime.py: the counters of the loop and of the checkpoints that it writes.
use sep.Base.{
  ℕ, zero, suc, ◌+◌, ◌*◌, ◌≤◌, ◌<◌, ◌≡◌, refl, sym, subst, String, true, inl, inr, Option, none,
  some, Bool-cases, any, length, All, ◌⊎◌, arith,
}
use sep.Core.Errors.{Result, ok, err}
use sep.Store.Session.{Exec}
use sep.Store.Session.Ensures.{Ensures}
use sep.Store.Session.Yields.{Yields, Yields-pure, Yields-if, Yields-then}
use sep.Agents.Runtime.{Budget, Counters, AgentProgram, AgentRuntime}
use sep.Agents.Runtime.Choice.{Choice, exhausted}
use sep.Agents.Runtime.Choice.Budgets.{Settled, next_action-Settled}
use sep.Agents.Runtime.Loop.{
  StepRow, Tables, World, Models, outside, Pass, ended, going, insert_step, in_store, stored,
  is_step, checkpoint, stepped, finish_step, act, step, pass, follow, loop,
}

pub record Within (b : Budget) (c : Counters) : Type 0 where
  pub steps_within : c.steps ≤ b.max_steps
  pub tools_within : c.tool_calls ≤ b.max_tool_calls
  pub calls_within : c.model_calls ≤ b.max_model_calls
  pub tools_per_step : c.tool_calls ≤ c.steps
  pub calls_per_step : c.model_calls ≤ 2 * c.steps
  pub fallback_per_step : c.fallbacks ≤ c.steps
  pub errors_counted : length c.model_errors ≤ c.fallbacks
  pub repairs_counted : c.repairs ≤ c.invalid_replies
  pub replies_counted : c.invalid_replies ≤ c.model_calls

-- A checkpoint of the run stands under the number of its steps and is within the budget.
abbrev pub RowWithin : {J : Type 0} → Budget → String → StepRow J → Type 0
RowWithin b run_id row =
    row.run_id ≡ run_id → (row.step ≡ row.counters.steps) × Within b row.counters

abbrev pub TablesWithin : {J : Type 0} → Budget → String → Option (Tables J) → Type 0
TablesWithin b run_id none = Unit {0}
TablesWithin b run_id (some tables) = All (RowWithin b run_id) tables.steps

module _ {W S R J : Type 0} (runtime : AgentRuntime W J) (program : AgentProgram W S R J)
    (models : Models S R) (run_id : String) (one_tool : (o : J) → program.tool_call o ≤ 1) where
  abbrev budget : Budget
  budget = runtime.budget

  abbrev pub Checked : World W J → Type 0
  Checked world = TablesWithin budget run_id world.store

  pub outside-Yields :
      {A : Type 0} (P : A → Type 0) (m : Exec W A)
      → Ensures P m
      → Yields Checked P (outside {J = J} m)
  unfolding outside
  outside-Yields P m e = record {
    kept = λ s i. i;
    value = λ s s' a i h. e.returned s.outer (m s.outer).1 a (cc);
  }

  -- The program says that it is done, or was told which budget is used up.
  abbrev pub Over : S → Type 0
  Over state =
      (program.done state ≡ true)
      ⊎ ((before : S) × (reason : String) × (state ≡ program.exhaust before reason))

  -- What a pass does to the counters.
  abbrev pub Advanced : Counters → Pass S → Type 0
  Advanced c (ended state d) = (d ≡ c) × Over state
  Advanced c (going state d) =
      (d.steps ≡ c.steps + 1) × (c.steps < budget.max_steps) × Within budget d

  insert_step-Within :
      (row : StepRow J) (tables : Tables J)
      → RowWithin budget run_id row
      → All (RowWithin budget run_id) tables.steps
      → All (RowWithin budget run_id) (insert_step row tables).1.steps
  unfolding insert_step
  insert_step-Within row tables h all =
      elim (Bool-cases (any (is_step row.run_id row.step) tables.steps)) [
        | inl taken ↦ rw taken all
        | inr free ↦ rw free (h, all)
      ]

  in_store-Within :
      (write : Tables J → Result (Unit {0}) × Tables J) (st : Option (Tables J)) (world : World W J)
      → ((tables : Tables J)
          → All (RowWithin budget run_id) tables.steps
          → All (RowWithin budget run_id) (write tables).1.steps)
      → TablesWithin budget run_id st
      → Checked world
      → Checked (in_store st write world).1
  unfolding in_store
  in_store-Within write none world keep i j = j
  in_store-Within write (some tables) world keep i j = keep tables i

  pub stored-Yields :
      (write : Tables J → Result (Unit {0}) × Tables J)
      → ((tables : Tables J)
          → All (RowWithin budget run_id) tables.steps
          → All (RowWithin budget run_id) (write tables).1.steps)
      → Yields Checked (λ _. Unit {0}) (stored write)
  unfolding stored
  stored-Yields write keep = record {
    kept = λ s i. in_store-Within write s.store s keep i i;
    value = λ _ _ _ _ _. tt;
  }

  checkpoint-Yields :
      (choice : Choice J) (o : J) (state : S) (c : Counters)
      → Within budget c
      → Yields Checked (λ _. Unit {0}) (checkpoint runtime program models run_id choice o state c)
  unfolding checkpoint
  checkpoint-Yields choice o state c h =
      stored-Yields _ (λ tables i. insert_step-Within _ tables (λ _. (refl, h)) i)

  finish_step-Yields :
      (c : Counters) (choice : Choice J) (result : S × J)
      → Within budget c
      → c.steps < budget.max_steps
      → c.tool_calls < budget.max_tool_calls
      → Settled runtime program c.tool_calls c.steps choice
      → Yields Checked (Advanced c) (finish_step runtime program models run_id choice result)
  unfolding finish_step
  finish_step-Yields c choice (state, o) h room tools settled =
      Yields-then Checked (λ _. Unit {0}) (Advanced c) _ _
        (checkpoint-Yields choice o state (stepped runtime program models run_id choice.counters o)
          (omega (arith, one_tool o)))
        (λ _ _. Yields-pure Checked (Advanced c) _ (omega (arith, one_tool o)))

  act-Yields :
      (c : Counters) (state : S) (choice : Choice J)
      → Within budget c
      → c.steps < budget.max_steps
      → c.tool_calls < budget.max_tool_calls
      → Settled runtime program c.tool_calls c.steps choice
      → Yields Checked (Advanced c) (act runtime program models run_id state choice)
  unfolding act
  act-Yields c state choice h room tools settled =
      Yields-then Checked (λ _. Unit {0}) (Advanced c) _ _
        (outside-Yields (λ _. Unit {0}) _ (record { returned = λ _ _ _ _. tt }))
        (λ result _. finish_step-Yields c choice result h room tools settled)

  -- `exhausted` gives no reason only if a step and a tool call are left.
  abbrev Room : Counters → Option String → Type 0
  Room c none = (c.steps < budget.max_steps) × (c.tool_calls < budget.max_tool_calls)
  Room c (some reason) = Unit {0}

  exhausted-Room : (c : Counters) (started : ℕ) → Ensures (Room c) (exhausted runtime c started)
  unfolding exhausted
  exhausted-Room c started = record { returned = λ w w' o h. has_room w w' o h }
    where
      has_room :
          (w w' : W) (o : Option String) → exhausted runtime c started w ≡ (ok o, w') → Room c o
      has_room w w' (some reason) h = tt
      has_room w w' none h = ground arith

  step-Yields :
      (c : Counters) (state : S) (reason : Option String)
      → Within budget c
      → Room c reason
      → Yields Checked (Advanced c) (step runtime program models run_id state c reason)
  unfolding step
  step-Yields c state (some reason) h room =
      Yields-pure Checked (Advanced c) _ (refl, inr (state, reason, refl))
  step-Yields c state none h (room, tools) =
      Yields-then Checked (Settled runtime program c.tool_calls c.steps) (Advanced c) _ _
        (outside-Yields _ _
          (next_action-Settled runtime program c.tool_calls c.steps state c (omega arith)))
        (λ choice settled. act-Yields c state choice h room tools settled)

  pub pass-Yields :
      (started : ℕ) (state : S) (c : Counters)
      → Within budget c
      → Yields Checked (Advanced c) (pass runtime program models run_id started state c)
  unfolding pass
  pass-Yields started state c h =
      Yields-if Checked (Advanced c) (program.done state) _ _
        (λ over. Yields-pure Checked (Advanced c) _ (refl, inl over))
        (λ _.
          Yields-then Checked (Room c) (Advanced c) _ _
            (outside-Yields _ _ (exhausted-Room c started))
            (λ reason room. step-Yields c state reason h room))

  -- The loop came to an end, within the budget; where nothing was raised, the program is over.
  abbrev pub Ended : Option (Result (S × Counters) × World W J) → Type 0
  Ended none = ⊥
  Ended (some (err e, world)) = Checked world
  Ended (some (ok (state, c), world)) = Checked world × Within budget c × Over state

  follow-Ended :
      (again : S → Counters → World W J → Option (Result (S × Counters) × World W J)) (c : Counters)
      (r : Result (Pass S)) (world : World W J)
      → Within budget c
      → Checked world
      → ((p : Pass S) → r ≡ ok p → Advanced c p)
      → ((state : S) (d : Counters)
          → d.steps ≡ c.steps + 1
          → c.steps < budget.max_steps
          → Within budget d
          → Ended (again state d world))
      → Ended (follow runtime program models run_id again (r, world))
  unfolding follow
  follow-Ended again c (err e) world h i advanced later = i
  follow-Ended again c (ok (ended state d)) world h i advanced later =
      let (e, over) = advanced (ended state d) refl in (i, subst (Within budget) (sym e) h, over)
  follow-Ended again c (ok (going state d)) world h i advanced later =
      let (e, room, h') = advanced (going state d) refl in later state d e room h'

  pub loop-Ended :
      (fuel started : ℕ) (state : S) (c : Counters) (world : World W J)
      → Within budget c
      → budget.max_steps < c.steps + fuel
      → Checked world
      → Ended (loop runtime program models run_id fuel started state c world)
  unfolding loop
  loop-Ended zero started state c world h enough i = absurd (omega (arith, h.steps_within))
  loop-Ended (suc fuel) started state c world h enough i =
      follow-Ended (loop runtime program models run_id fuel started) c
        (pass runtime program models run_id started state c world).0
        (pass runtime program models run_id started state c world).1 h
        ((pass-Yields started state c h).kept world i)
        (λ p e.
          (pass-Yields started state c h).value world
            (pass runtime program models run_id started state c world).1 p i (cc))
        (λ state' d e room h'.
          loop-Ended fuel started state' d
            (pass runtime program models run_id started state c world).1 h' (omega arith)
            ((pass-Yields started state c h).kept world i))
