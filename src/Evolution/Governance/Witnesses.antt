-- ===== src/Evolution/Governance/Witnesses.antt =====
-- The theorems about governance at concrete inputs.
use sep.Base.{String, ◌≡◌, ◌≢◌, refl, true, false, Option, some, none, List, [], ◌∷◌, ◌++◌, All}
use sep.Core.Errors.{ok, err, immutable_record_error}
use sep.Core.Security.{Role, Principal, has, agent_principal}
use sep.Domain.Policy.{
  PolicyBundle, CandidateEvent, CandidateState, draft, replayed, counterexamples_passed,
  shadow_passed, awaiting_approval, released,
}
use sep.Store.Artifacts.{row_of}
use sep.Evolution.Governance.State.{
  bundle_payload, report_payload, Db, empty, state, events, submitter, active_bundle, human,
  bundle_kind, event_kind, activation_kind,
}
use sep.Evolution.Governance.Methods.{submit, reject, approve, rollback}
use sep.Evolution.Governance.Access.{
  Refused, is_machine, machines-Refused, approve-four_eyes, Approved,
}
use sep.Evolution.Governance.Lifecycle.{states}
use sep.Evolution.Governance.Invariant.{IsGoverned, empty-Governed, apart}
use sep.Evolution.Governance.Release.{approve-releases, approve-blocked}
use sep.Evolution.Governance.Runs.{
  HasOwnKind, Call, call_seed, call_create, call_record_step, call_submit, call_approve, after_call,
  run, run-Governed, released-every_gate,
}
use sep.Evolution.Governance.Samples.{
  toy_hash, toy_digest, toy_ref, ann, bob, rule_x, proposal, prepare, submitted, approved, program,
}

abbrev robot : Principal
robot = agent_principal "discovery" bob

machines-Refused_example :
    Refused (submit toy_hash toy_digest "t6" "C-1" robot "") submitted
    × Refused (reject toy_hash toy_digest "t6" "C-1" robot "") submitted
    × Refused (approve toy_hash toy_digest toy_ref (ok true) "t6" "C-1" robot "") submitted
    × Refused (rollback toy_hash toy_digest "t6" "C-1" robot "") submitted
unfolding agent_principal
machines-Refused_example =
    machines-Refused toy_hash toy_digest robot refl submitted "t6" "C-1" "" toy_ref (ok true)

-- A service account with the administrator role passes the check for people.
abbrev service_admin : Principal
service_admin = record {
  user_id = "batch";
  roles = Role.service ∷ (Role.admin ∷ []);
  desks = "*" ∷ [];
  person_data = false;
}

service_admin_passes : human service_admin ≡ ok tt
unfolding human
service_admin_passes = refl

abbrev bundle_2 : PolicyBundle
bundle_2 = record {
  bundle_id = "BUNDLE-0002";
  version = 2;
  parent_id = some "BUNDLE-0001";
  rules = rule_x ∷ [];
  bulk_policy = [];
  created_at = "t6";
  created_by = "bob";
  source_candidate = some "C-1";
  notes = "fine";
}

approve-four_eyes_example :
    (history : List CandidateEvent) × (submitted_by : String) × (has bob Role.approver ≡ true)
    × (is_machine bob ≡ false)
    × (state "C-1" submitted ≡ ok awaiting_approval)
    × (events "C-1" submitted ≡ ok history)
    × (submitter history ≡ ok submitted_by)
    × (submitted_by ≢ "bob")
unfolding program
approve-four_eyes_example =
    approve-four_eyes toy_hash toy_digest toy_ref "t6" "C-1" "fine" bob submitted approved bundle_2
      refl

abbrev gates : List Call
gates =
    call_seed "t0" [] []
    ∷ call_create "t1" (proposal "C-1")
    ∷ call_record_step "t2" "C-1" replayed "ann" "replay" "C-1" (report_payload "ok") ""
    ∷ call_record_step "t3" "C-1" counterexamples_passed "ann" "counterexamples" "C-1"
        (report_payload "ok") ""
    ∷ call_record_step "t4" "C-1" shadow_passed "ann" "shadow" "C-1" (report_payload "ok") ""
    ∷ call_submit "t5" "C-1" ann "please"
    ∷ []

abbrev calls : List Call
calls = gates ++ (call_approve "t6" "C-1" bob "fine" ∷ [])

calls-HasOwnKind : All HasOwnKind calls
calls-HasOwnKind = (
  tt,
  (
    tt,
    (
      (apart "replay" event_kind refl, apart "replay" activation_kind refl),
      (
        (apart "counterexamples" event_kind refl, apart "counterexamples" activation_kind refl),
        ((apart "shadow" event_kind refl, apart "shadow" activation_kind refl), (tt, (tt, tt))),
      ),
    ),
  ),
)

gates-HasOwnKind : All HasOwnKind gates
gates-HasOwnKind = (
  tt,
  (
    tt,
    (
      (apart "replay" event_kind refl, apart "replay" activation_kind refl),
      (
        (apart "counterexamples" event_kind refl, apart "counterexamples" activation_kind refl),
        ((apart "shadow" event_kind refl, apart "shadow" activation_kind refl), (tt, tt)),
      ),
    ),
  ),
)

run-Governed_example : IsGoverned (run toy_hash toy_digest toy_ref (ok true) calls empty)
run-Governed_example =
    run-Governed toy_hash toy_digest toy_ref (ok true) calls empty calls-HasOwnKind empty-Governed

released-every_gate_example :
    (es : List CandidateEvent) × (events "C-1"
        (run toy_hash toy_digest toy_ref (ok true) calls empty)
      ≡ ok es)
    × (states es
        ≡ draft ∷ replayed ∷ counterexamples_passed ∷ shadow_passed ∷ awaiting_approval ∷ released
          ∷ [])
unfolding program after_call
released-every_gate_example =
    released-every_gate toy_hash toy_digest toy_ref (ok true) calls "C-1" calls-HasOwnKind refl

-- What the approval of `C-1` finds.
abbrev before : Db
before = run toy_hash toy_digest toy_ref (ok true) gates empty

abbrev bundle_1 : PolicyBundle
bundle_1 = record {
  bundle_id = "BUNDLE-0001";
  version = 1;
  parent_id = none;
  rules = [];
  bulk_policy = [];
  created_at = "t0";
  created_by = "seed";
  source_candidate = none;
  notes = "initial production policy";
}

-- All that `approve` checks and reads is in order.
abbrev Checks : (db : Db) (target : String) → List CandidateEvent → Type 0
Checks db target history =
    (state target db ≡ ok awaiting_approval)
    × (events target db ≡ ok history)
    × (submitter history ≡ ok "ann")

abbrev in_order :
    (db : Db) (target : String) (history : List CandidateEvent)
    → Checks db target history
    → Approved toy_hash toy_digest (ok true) target bob db
unfolding has
in_order db target history (at_state, at_events, at_submitter) = record {
  approver = refl;
  person = refl;
  current = awaiting_approval;
  at_state = at_state;
  awaiting = refl;
  history = history;
  at_events = at_events;
  submitted_by = "ann";
  at_submitter = at_submitter;
  on = true;
  at_setting = refl;
  other_hands = λ _. apart "ann" "bob" refl;
}

abbrev event_at :
    String → String → CandidateState → String → Option String → String → CandidateEvent
event_at target now new actor h note = record {
  candidate_id = target;
  state = new;
  actor = actor;
  at = now;
  artifact_hash = h;
  note = note;
}

abbrev history_of : String → List CandidateEvent
history_of c =
    event_at c "t1" draft "agent:discovery" none "proposed"
    ∷ event_at c "t2" replayed "ann" (some "ok") ""
    ∷ event_at c "t3" counterexamples_passed "ann" (some "ok") ""
    ∷ event_at c "t4" shadow_passed "ann" (some "ok") ""
    ∷ event_at c "t5" awaiting_approval "ann" none "please"
    ∷ []

approve-releases_example :
    (db' : Db) × (approve toy_hash toy_digest toy_ref (ok true) "t6" "C-1" bob "fine" before
      ≡ (ok bundle_2, db'))
    × (active_bundle db' ≡ ok bundle_2)
    × (state "C-1" db' ≡ ok released)
    × IsGoverned db'
unfolding program after_call in_order
approve-releases_example =
    approve-releases toy_hash toy_digest toy_ref "t6" "C-1" "fine" bob (ok true) before
      (record {
        c = proposal "C-1";
        parent = bundle_1;
        policy = (rule_x ∷ [], []);
        at_candidate = refl;
        at_parent = refl;
        at_policy = refl;
      })
      (run-Governed toy_hash toy_digest toy_ref (ok true) gates empty gates-HasOwnKind
        empty-Governed)
      (in_order before "C-1" (history_of "C-1") (refl, refl, refl)) refl

-- The release of `C-1` is rolled back, and `C-2` is taken as far as its submission.
abbrev rolled_back : Db
rolled_back =
    prepare "C-2" ((rollback toy_hash toy_digest "t7" "BUNDLE-0001" bob "wrong") approved).1

approve-blocked_example :
    approve toy_hash toy_digest toy_ref (ok true) "t8" "C-2" bob "fine" rolled_back
    ≡ (err immutable_record_error, rolled_back)
unfolding program in_order
approve-blocked_example =
    approve-blocked toy_hash toy_digest toy_ref "t8" "C-2" "fine" bob (ok true) rolled_back
      (record {
        c = proposal "C-2";
        parent = bundle_1;
        policy = (rule_x ∷ [], []);
        at_candidate = refl;
        at_parent = refl;
        at_policy = refl;
      })
      (row_of toy_hash bundle_kind "BUNDLE-0002" "1" "t6" (bundle_payload bundle_2))
      (in_order rolled_back "C-2" (history_of "C-2") (refl, refl, refl)) refl refl
