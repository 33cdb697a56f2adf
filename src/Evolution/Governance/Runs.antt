-- ===== src/Evolution/Governance/Runs.antt =====
-- evolution/governance.py: any run of calls, returned or raised.
use sep.Base.{String, ◌≡◌, ◌≢◌, subst, Bool, List, [], ◌∷◌, All, arith}
use sep.Core.Errors
use sep.Core.Errors.{Result, ok}
use sep.Core.Security.{Principal}
use sep.Domain.Policy.{
  RuleSet, BulkPolicy, CandidateState, draft, replayed, counterexamples_passed, shadow_passed,
  awaiting_approval, released, Candidate, CandidateEvent,
}
use sep.Store.Audit.{Body}
use sep.Evolution.Governance.State.{
  Payload, Db, empty, event_kind, activation_kind, events, state, last_state,
}
use sep.Evolution.Governance.Methods.{seed, rollback, create, record_step, submit, reject, approve}
use sep.Evolution.Governance.Lifecycle.{states, IsLawful, route, released-whole_way}
use sep.Evolution.Governance.Invariant.{IsGoverned, empty-Governed}
use sep.Evolution.Governance.Appending.{events-stored}
use sep.Evolution.Governance.Preserved.{
  seed-Governed, create-Governed, record_step-Governed, submit-Governed, reject-Governed,
  approve-Governed, rollback-Governed,
}

-- A call of one public method of `Governance` that writes.
pub data Call : Type 0 where
  call_seed : (now : String) → RuleSet → BulkPolicy → Call
  call_create : (now : String) → Candidate → Call
  call_record_step :
      (now id : String)
      → CandidateState
      → (actor kind key : String) → Payload
      → (note : String) → Call
  call_submit : (now id : String) → Principal → (note : String) → Call
  call_reject : (now id : String) → Principal → (reason : String) → Call
  call_approve : (now id : String) → Principal → (note : String) → Call
  call_rollback : (now bundle_id : String) → Principal → (reason : String) → Call

-- The artifact of a step is stored under a kind of its own, not under the kind of the events or of
-- the activations.
abbrev pub HasOwnKind : Call → Type 0
HasOwnKind (call_record_step now id new actor kind key artifact note) =
    (kind ≢ event_kind) × (kind ≢ activation_kind)
HasOwnKind _ = Unit

module _ (content_hash : Payload → String) (digest : Body → String) (bundle_ref : String → String)
    (four_eyes : Result Bool) where
  -- The store after one call, whether it returned or raised.
  unfoldable pub after_call : Call → Db → Db
  after_call (call_seed now rules bulk) db = (seed content_hash digest now rules bulk db).1
  after_call (call_create now c) db = (create content_hash digest now c db).1
  after_call (call_record_step now id new actor kind key artifact note) db =
      (record_step content_hash digest now id new actor kind key artifact note db).1
  after_call (call_submit now id p note) db = (submit content_hash digest now id p note db).1
  after_call (call_reject now id p reason) db = (reject content_hash digest now id p reason db).1
  after_call (call_approve now id p note) db =
      (approve content_hash digest bundle_ref four_eyes now id p note db).1
  after_call (call_rollback now bundle_id p reason) db =
      (rollback content_hash digest now bundle_id p reason db).1

  abbrev pub run : List Call → Db → Db
  run [] db = db
  run (c ∷ calls) db = run calls (after_call c db)

  after_call-Governed :
      (c : Call) (db : Db) → HasOwnKind c → IsGoverned db → IsGoverned (after_call c db)
  unfolding after_call
  after_call-Governed (call_seed now rules bulk) db own =
      (seed-Governed content_hash digest now rules bulk).after db
  after_call-Governed (call_create now c) db own =
      (create-Governed content_hash digest now c).after db
  after_call-Governed (call_record_step now id new actor kind key artifact note) db
        (other, other') =
      (record_step-Governed content_hash digest now id new actor kind key artifact note other
          other').after
        db
  after_call-Governed (call_submit now id p note) db own =
      (submit-Governed content_hash digest now id p note).after db
  after_call-Governed (call_reject now id p reason) db own =
      (reject-Governed content_hash digest now id p reason).after db
  after_call-Governed (call_approve now id p note) db own =
      (approve-Governed content_hash digest bundle_ref four_eyes now id p note).after db
  after_call-Governed (call_rollback now bundle_id p reason) db own =
      (rollback-Governed content_hash digest now bundle_id p reason).after db

  -- After any calls, returned or raised, from a store whose histories are lawful, every candidate's
  -- events can be read, and their states are a path through the transition table that begins at
  -- DRAFT. The artifacts of steps are stored under kinds of their own.
  pub run-Governed :
      (calls : List Call) (db : Db)
      → All HasOwnKind calls
      → IsGoverned db
      → IsGoverned (run calls db)
  run-Governed [] db own g = g
  run-Governed (c ∷ calls) db (own, rest) g =
      run-Governed calls (after_call c db) rest (after_call-Governed c db own g)

  -- After any calls from the empty store, a candidate whose state is RELEASED has exactly the events
  -- DRAFT, REPLAYED, COUNTEREXAMPLES_PASSED, SHADOW_PASSED, AWAITING_APPROVAL and RELEASED, in this
  -- order: no gate was skipped, failed or repeated. The artifacts of steps are stored under kinds of
  -- their own.
  pub released-every_gate :
      (calls : List Call) (id : String)
      → All HasOwnKind calls
      → state id (run calls empty) ≡ ok released
      → (es : List CandidateEvent) × (events id (run calls empty) ≡ ok es)
        × (states es
            ≡ draft ∷ replayed ∷ counterexamples_passed ∷ shadow_passed ∷ awaiting_approval
              ∷ released ∷ [])
  unfolding state route
  released-every_gate calls id own h =
      let g = run-Governed calls empty own empty-Governed in
      let (es, stored, lawful) = g.history id in
      let read = events-stored id (run calls empty) es stored in
      (es, read, ended es lawful (subst (λ r. Errors.◌>>=◌ r last_state ≡ ok released) read h))
    where
      ended :
          (es : List CandidateEvent)
          → IsLawful (states es)
          → last_state es ≡ ok released
          → states es ≡ draft ∷ route draft
      ended [] l e = ground arith
      ended (e ∷ es) l h = released-whole_way e es l h
