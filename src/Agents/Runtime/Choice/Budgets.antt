-- ===== src/Agents/Runtime/Choice/Budgets.antt =====
-- agents/runtime.py: what the choice of an action spends of the budget.
use sep.Base.{
  ℕ, ◌+◌, ◌*◌, ◌≤◌, ◌<◌, ◌≡◌, String, Bool, true, false, inl, inr, Option, none, some, [], ◌∷◌, leb,
  ltb, leb→gt, ltb→lt, Bool-cases, length, length-append, arith,
}
use sep.Store.Session.Ensures.{Ensures, Ensures-pure, Ensures-next}
use sep.Agents.Gateway.{ModelGateway}
use sep.Agents.Runtime.{
  ModelFault, model_raised, invalid_reply, Counters, Reply, accepted, rejected, failed,
  AgentProgram, AgentRuntime,
}
use sep.Agents.Runtime.Choice.{
  Policy, playbook, playbook_budget, playbook_recovery, playbook_fallback, Choice, by_playbook,
  fall_back, give_up, ask, counted_call, counted_invalid, after_second, ask_again, after_first,
  ask_model, is_stuck, unless_stuck, choose, llm_gateway, next_action,
}

-- The counters of `steps` whole steps and `more` begun ones.
pub record Spent (max more tools steps : ℕ) (c : Counters) : Type 0 where
  pub same_steps : c.steps ≡ steps
  pub same_tools : c.tool_calls ≡ tools
  pub calls_within : c.model_calls ≤ max
  pub calls_per_step : c.model_calls ≤ 2 * steps + 2 * more
  pub fallback_per_step : c.fallbacks ≤ steps + more
  pub errors_counted : length c.model_errors ≤ c.fallbacks
  pub repairs_counted : c.repairs ≤ c.invalid_replies
  pub replies_counted : c.invalid_replies ≤ c.model_calls

module _ {W S R J : Type 0} (runtime : AgentRuntime W J) (program : AgentProgram W S R J)
    (tools steps : ℕ) where
  abbrev max : ℕ
  max = runtime.budget.max_model_calls

  abbrev pub Settled : Choice J → Type 0
  Settled choice = Spent max 1 tools steps choice.counters

  -- During the attempts: `tries` calls were made for this step, and `unread` of their replies are
  -- not known to be invalid.
  record Asking (tries unread : ℕ) (c : Counters) : Type 0 where
    pub same_steps : c.steps ≡ steps
    pub same_tools : c.tool_calls ≡ tools
    pub calls_within : c.model_calls ≤ max
    pub calls_per_step : c.model_calls ≤ 2 * steps + tries
    pub fallback_per_step : c.fallbacks ≤ steps
    pub errors_counted : length c.model_errors ≤ c.fallbacks
    pub repairs_counted : c.repairs ≤ c.invalid_replies
    pub replies_counted : c.invalid_replies + unread ≤ c.model_calls

  by_playbook-Settled :
      (policy : Policy) (state : S) (c : Counters)
      → Spent max 1 tools steps c
      → Ensures Settled (by_playbook runtime program policy state c)
  unfolding by_playbook
  by_playbook-Settled policy state c h =
      Ensures-next Settled (program.playbook state) _ (λ a. Ensures-pure Settled _ h)

  fall_back-Settled :
      (policy : Policy) (state : S) (c : Counters)
      → Asking 0 0 c
      → Ensures Settled (fall_back runtime program policy state c)
  unfolding fall_back
  fall_back-Settled policy state c h = by_playbook-Settled policy state _ (omega arith)

  give_up-Settled :
      (fault : ModelFault) (state : S) (c : Counters)
      → Asking 2 0 c
      → Ensures Settled (give_up runtime program fault state c)
  unfolding give_up
  give_up-Settled fault state c h =
      by_playbook-Settled playbook_fallback state _
        (omega (arith, length-append {0} c.model_errors (fault ∷ [])))

  after_second-Settled :
      (state : S) (c : Counters) (reply : Reply J)
      → Asking 2 1 c
      → Ensures Settled (after_second runtime program state c reply)
  unfolding after_second
  after_second-Settled state c (accepted action) h = Ensures-pure Settled _ (omega arith)
  after_second-Settled state c failed h = give_up-Settled model_raised state c (omega arith)
  after_second-Settled state c (rejected r) h =
      give_up-Settled (invalid_reply r) state (counted_invalid runtime program c) (omega arith)

  ask_again-Settled :
      (gateway : ModelGateway W) (user : String) (state : S) (c : Counters)
      → Asking 1 0 c
      → c.model_calls < max
      → Ensures Settled (ask_again runtime program gateway user state c)
  unfolding ask_again
  ask_again-Settled gateway user state c h room =
      Ensures-next Settled (ask runtime program gateway _) _
        (λ reply. after_second-Settled state (counted_call runtime program c) reply (omega arith))

  after_first-Settled :
      (gateway : ModelGateway W) (user : String) (state : S) (c : Counters) (reply : Reply J)
      → Asking 1 1 c
      → Ensures Settled (after_first runtime program gateway user state c reply)
  unfolding after_first
  after_first-Settled gateway user state c (accepted action) h =
      Ensures-pure Settled _ (omega arith)
  after_first-Settled gateway user state c failed h =
      give_up-Settled model_raised state c (omega arith)
  after_first-Settled gateway user state c (rejected r) h =
      elim (Bool-cases (ltb c.model_calls max)) [
        | inl room ↦
            rw room
              (ask_again-Settled gateway _ state _ (omega arith) (ltb→lt c.model_calls max room))
        | inr spent ↦ rw spent (
            give_up-Settled (invalid_reply r) state (counted_invalid runtime program c)
              (omega arith))
      ]

  ask_model-Settled :
      (gateway : ModelGateway W) (state : S) (c : Counters)
      → Asking 0 0 c
      → c.model_calls < max
      → Ensures Settled (ask_model runtime program gateway state c)
  unfolding ask_model
  ask_model-Settled gateway state c h room =
      Ensures-next Settled (program.observe state) _ λ payload. Ensures-next Settled _ _ λ user.
        Ensures-next Settled (ask runtime program gateway _) _ λ reply.
          after_first-Settled gateway user state (counted_call runtime program c) reply
            (omega arith)

  unless_stuck-Settled :
      (gateway : ModelGateway W) (state : S) (c : Counters) (stuck : Bool)
      → Asking 0 0 c
      → c.model_calls < max
      → Ensures Settled (unless_stuck runtime program gateway state c stuck)
  unfolding unless_stuck
  unless_stuck-Settled gateway state c true h room = fall_back-Settled playbook_recovery state c h
  unless_stuck-Settled gateway state c false h room = ask_model-Settled gateway state c h room

  choose-Settled :
      (gateway : Option (ModelGateway W)) (state : S) (c : Counters)
      → Asking 0 0 c
      → Ensures Settled (choose runtime program gateway state c)
  unfolding choose
  choose-Settled none state c h = by_playbook-Settled playbook state c (omega arith)
  choose-Settled (some gateway) state c h = elim (Bool-cases (leb max c.model_calls)) [
    | inl spent ↦ rw spent (fall_back-Settled playbook_budget state c h)
    | inr room ↦ rw room (
        Ensures-next Settled (is_stuck runtime program program.needs_playbook state) _
          λ stuck. unless_stuck-Settled gateway state c stuck h (leb→gt max c.model_calls room))
  ]

  -- One choice makes two calls of the model at most, and stays within the calls of the budget.
  pub next_action-Settled :
      (state : S) (c : Counters)
      → Spent max 0 tools steps c
      → Ensures Settled (next_action runtime program state c)
  unfolding next_action
  next_action-Settled state c h = choose-Settled (llm_gateway runtime) state c (omega arith)
