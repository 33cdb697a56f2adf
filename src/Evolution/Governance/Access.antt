-- ===== src/Evolution/Governance/Access.antt =====
-- evolution/governance.py: who may call the methods that change policy.
use sep.Base.{
  String, ◌≡◌, ◌≢◌, refl, ap, ◌∙◌, Bool, true, false, not, ◌⊎◌, inl, inr, ◌&&◌, ◌||◌, List, [], ◌∷◌,
  arith, ◌==◌, eq_iff,
}
use text.Mathlib.Text.{starts_with}
use sep.Core.Errors.{Error, Result, ok, err, permission_denied, governance_error}
use sep.Core.Security.{Role, Principal, has, has_role, require_role}
use sep.Domain.Policy.{PolicyBundle, CandidateEvent, CandidateState, awaiting_approval}
use sep.Store.Audit.{Body}
use sep.Store.Session.{Exec, ◌>>=◌, ◌>>◌, lift}
use sep.Store.Session.Keeps.{lift-eq-ok, reads-eq-ok}
use sep.Evolution.Governance.State.{Payload, Db, human, state, events, submitter, is_awaiting}
use sep.Evolution.Governance.Methods.{submit, reject, approve, rollback, release, require}

-- The call failed with PermissionDenied and wrote nothing.
abbrev pub Refused : {A : Type 0} → Exec Db A → Db → Type 0
Refused m db = m db ≡ (err permission_denied, db)

require_role-cases :
    (p : Principal) (roles : List Role)
    → (require_role p roles ≡ ok tt) ⊎ (require_role p roles ≡ err permission_denied)
unfolding require_role
require_role-cases p roles = ground arith

-- Both checks of a governance method.
gate-Refused :
    {A : Type 0} (p : Principal) (roles : List Role) (m : Exec Db A) (db : Db)
    → human p ≡ err permission_denied
    → Refused (lift (require_role p roles) >> (lift (human p) >> m)) db
unfolding ◌>>=◌
gate-Refused p roles m db h = elim (require_role-cases p roles) [
  | inl holds ↦ rw holds (rw h)
  | inr lacks ↦ rw lacks
]

pub gate-passed :
    {A : Type 0} (p : Principal) (roles : List Role) (m : Exec Db A) (db : Db) {a : A} {db' : Db}
    → (lift (require_role p roles) >> (lift (human p) >> m)) db ≡ (ok a, db')
    → (require_role p roles ≡ ok tt) × (human p ≡ ok tt) × (m db ≡ (ok a, db'))
gate-passed p roles m db h =
    let (_, role, rest) = lift-eq-ok (require_role p roles) _ db h in
    let (_, person, rest) = lift-eq-ok (human p) _ db rest in (role, person, rest)

-- An agent's principal, or a service account's without the administrator role.
abbrev pub is_machine : Principal → Bool
is_machine p =
    starts_with p.user_id "agent:"
    || has_role Role.service p.roles && not (has_role Role.admin p.roles)

human_refuses : (p : Principal) → is_machine p ≡ true → human p ≡ err permission_denied
unfolding human
human_refuses p h = rw h

human_accepts : (p : Principal) → human p ≡ ok tt → is_machine p ≡ false
unfolding human
human_accepts p h = ground arith

person_suffices : (p : Principal) → is_machine p ≡ false → human p ≡ ok tt
unfolding human
person_suffices p h = rw h

hands : (on : Bool) (a b : String) → (on ≡ true → a ≢ b) → not (on && a == b) ≡ true
hands true a b h = ground (arith, eq_iff a b, h refl)
hands false a b h = refl

different : (on : Bool) (a b : String) → not (on && a == b) ≡ true → on ≡ true → a ≢ b
different on a b h = ground (arith, eq_iff a b)

pub only_awaiting : (s : CandidateState) → is_awaiting s ≡ true → s ≡ awaiting_approval
only_awaiting awaiting_approval h = refl
only_awaiting _ h = ground arith

setting_on : (on : Bool) → ok true ≡ ok on → on ≡ true
setting_on on h = ground arith

module _ (content_hash : Payload → String) (digest : Body → String) where
  -- A principal whose user id begins with "agent:", whatever roles it was given, and a service
  -- account that is not an administrator are refused by `submit`, `reject`, `approve` and
  -- `rollback` with PermissionDenied, and the store is left as it was.
  pub machines-Refused :
      (p : Principal)
      → is_machine p ≡ true
      → (db : Db) (now target note : String) (bundle_ref : String → String)
        (four_eyes : Result Bool)
      → Refused (submit content_hash digest now target p note) db
        × Refused (reject content_hash digest now target p note) db
        × Refused (approve content_hash digest bundle_ref four_eyes now target p note) db
        × Refused (rollback content_hash digest now target p note) db
  unfolding submit reject approve rollback
  machines-Refused p h db now target note bundle_ref four_eyes =
      let refuses = human_refuses p h in
      (
        gate-Refused p (Role.investigator ∷ Role.approver ∷ []) _ db refuses,
        gate-Refused p (Role.approver ∷ []) _ db refuses,
        gate-Refused p (Role.approver ∷ []) _ db refuses,
        gate-Refused p (Role.approver ∷ []) _ db refuses,
      )

  approver_role :
      (p : Principal) → require_role p (Role.approver ∷ []) ≡ ok tt → has p Role.approver ≡ true
  unfolding require_role
  approver_role p h = ground arith

  require-true :
      {A : Type 0} (b : Bool) (e : Error) (m : Exec Db A) (db : Db) {a : A} {db' : Db}
      → (require b e >> m) db ≡ (ok a, db')
      → (b ≡ true) × (m db ≡ (ok a, db'))
  unfolding require ◌>>=◌
  require-true true e m db h = (refl, h)
  require-true false e m db h = ground arith

  -- Everything that an approval which returned had passed.
  pub record Approved (four_eyes : Result Bool) (target : String) (p : Principal) (db : Db)
      : Type 0 where
    pub approver : has p Role.approver ≡ true
    pub person : is_machine p ≡ false
    pub current : CandidateState
    pub at_state : state target db ≡ ok current
    pub awaiting : is_awaiting current ≡ true
    pub history : List CandidateEvent
    pub at_events : events target db ≡ ok history
    pub submitted_by : String
    pub at_submitter : submitter history ≡ ok submitted_by
    pub on : Bool
    pub at_setting : four_eyes ≡ ok on
    pub other_hands : on ≡ true → submitted_by ≢ p.user_id

  pub approve-passed :
      (bundle_ref : String → String) (four_eyes : Result Bool) (now target note : String)
      (p : Principal) (db db' : Db) (b : PolicyBundle)
      → approve content_hash digest bundle_ref four_eyes now target p note db ≡ (ok b, db')
      → Approved four_eyes target p db
        × (release content_hash digest bundle_ref now target p note db ≡ (ok b, db'))
  unfolding approve
  approve-passed bundle_ref four_eyes now target note p db db' b h =
      let (role, person, h) = gate-passed p (Role.approver ∷ []) _ db h in
      let (current, at_state, h) = reads-eq-ok (state target) _ db h in
      let (awaiting, h) = require-true (is_awaiting current) governance_error _ db h in
      let (history, at_events, h) = reads-eq-ok (events target) _ db h in
      let (submitted_by, at_submitter, h) = lift-eq-ok (submitter history) _ db h in
      let (on, at_setting, h) = lift-eq-ok four_eyes _ db h in
      let (other, h) =
        require-true (not (on && submitted_by == p.user_id)) permission_denied _ db h in
      (
        record {
          approver = approver_role p role;
          person = human_accepts p person;
          current = current;
          at_state = at_state;
          awaiting = awaiting;
          history = history;
          at_events = at_events;
          submitted_by = submitted_by;
          at_submitter = at_submitter;
          on = on;
          at_setting = at_setting;
          other_hands = different on submitted_by p.user_id other;
        },
        h,
      )

  role_suffices :
      (p : Principal) → has p Role.approver ≡ true → require_role p (Role.approver ∷ []) ≡ ok tt
  unfolding require_role
  role_suffices p h = rw h

  -- An approval whose checks hold is what `release` does.
  pub approve-runs :
      (bundle_ref : String → String) (four_eyes : Result Bool) (now target note : String)
      (p : Principal) (db : Db)
      → Approved four_eyes target p db
      → approve content_hash digest bundle_ref four_eyes now target p note db
        ≡ release content_hash digest bundle_ref now target p note db
  unfolding approve ◌>>=◌
  approve-runs bundle_ref four_eyes now target note p db a =
      rw
        (
          role_suffices p a.approver,
          person_suffices p a.person,
          a.at_state,
          a.awaiting,
          a.at_events,
          a.at_submitter,
          a.at_setting,
        )
        (rw (hands a.on a.submitted_by p.user_id a.other_hands))

  -- With the four-eyes setting on, an approval that returned was given by a principal with the
  -- approver's role (or the administrator's), whose user id does not begin with "agent:" and who is no
  -- service account or is an administrator as well, for a candidate that was awaiting approval and
  -- whose latest submission is in another user's name.
  pub approve-four_eyes :
      (bundle_ref : String → String) (now target note : String) (p : Principal) (db db' : Db)
      (b : PolicyBundle)
      → approve content_hash digest bundle_ref (ok true) now target p note db ≡ (ok b, db')
      → (history : List CandidateEvent) × (submitted_by : String) × (has p Role.approver ≡ true)
        × (is_machine p ≡ false)
        × (state target db ≡ ok awaiting_approval)
        × (events target db ≡ ok history)
        × (submitter history ≡ ok submitted_by)
        × (submitted_by ≢ p.user_id)
  approve-four_eyes bundle_ref now target note p db db' b h =
      let a = (approve-passed bundle_ref (ok true) now target note p db db' b h).0 in
      (
        a.history,
        a.submitted_by,
        a.approver,
        a.person,
        a.at_state ∙ ap (λ (s : CandidateState). ok s) (only_awaiting a.current a.awaiting),
        a.at_events,
        a.at_submitter,
        a.other_hands (setting_on a.on a.at_setting),
      )
