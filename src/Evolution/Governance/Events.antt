-- ===== src/Evolution/Governance/Events.antt =====
-- evolution/governance.py: `_event` behind a passed check.
use sep.Base.{◌+◌, String, ◌≡◌, refl, ap, ◌∙◌, subst, true, false, Option, List, [], ◌∷◌, ◌++◌}
use Prim.Native.String
use sep.Base.Text.{str}
use sep.Core.Errors.{Result, ok, governance_error}
use sep.Store.Artifacts.{Row, at_key}
use sep.Store.Artifacts.Numbered.{IsNumbered, rank, next-free}
use sep.Store.Artifacts.Single.{put-fresh, history-cons}
use sep.Store.Audit.{Body, audit}
use sep.Store.Session.{◌>>=◌, reads}
use sep.Store.Session.Keeps.{bind-at}
use sep.Domain.Policy.{CandidateState, CandidateEvent}
use sep.Evolution.Governance.State.{
  Payload, event_payload, Db, event_kind, events, state, allowed, last_state, state_value,
}
use sep.Evolution.Governance.Methods.{put, event, append_event, require, hash_text}
use sep.Evolution.Governance.Invariant.{
  IsGoverned, HasHistory, event_row, history_extended, rank-stored,
}
use sep.Evolution.Governance.Appending.{the_event, events-stored, event-Governed}

pub last_state-append :
    (es : List CandidateEvent) (e : CandidateEvent) → last_state (es ++ (e ∷ [])) ≡ ok e.state
last_state-append [] e = refl
last_state-append (x ∷ []) e = refl
last_state-append (x ∷ (y ∷ es)) e = last_state-append (y ∷ es) e

-- A row that is no event of a candidate leaves its state.
pub state_other :
    (id : String) (r : Row Payload) (db : Db)
    → at_key event_kind id r ≡ false
    → state id (record db { artifacts = r ∷ db.artifacts }) ≡ state id db
unfolding state events
state_other id r db other = rw (history-cons event_kind id r db.artifacts, other)

module _ (content_hash : Payload → String) (digest : Body → String) (now id : String)
    (new : CandidateState) (actor : String) (h : Option String) (note : String) where
  abbrev pub added : CandidateEvent
  added = the_event content_hash digest now id new actor h note

  abbrev pub next_row : Db → Row Payload
  next_row db = event_row content_hash id (str (rank event_kind id db.artifacts + 1)) now added

  unfoldable pub evented : Db → Db
  evented db = record {
    artifacts = next_row db ∷ db.artifacts;
    audit_log =
        (audit digest now actor (String.◌++◌ "CANDIDATE_" (state_value new)) id
          (("artifact_hash", hash_text h) ∷ ("note", note) ∷ []) db.audit_log).1;
  }

  append_event_lem :
      (db : Db) (es : List CandidateEvent)
      → IsNumbered event_kind db.artifacts
      → HasHistory db.artifacts id es
      → append_event content_hash digest now id new actor h note db ≡ (ok added, evented db)
  unfolding append_event ◌>>=◌ put evented
  append_event_lem db es n stored =
      rw (events-stored id db es stored, rank-stored id db es stored)
        (rw (
          put-fresh content_hash event_kind id (str (rank event_kind id db.artifacts + 1)) now
            (event_payload added) db.artifacts (next-free event_kind id db.artifacts n)))

  new_state :
      (db : Db) (es : List CandidateEvent)
      → HasHistory db.artifacts id es
      → state id (evented db) ≡ ok new
  unfolding state evented
  new_state db es stored =
      let version = str (rank event_kind id db.artifacts + 1) in
      rw
        (events-stored id (evented db) (es ++ (added ∷ []))
          (history_extended content_hash id version now added db.artifacts es stored))
        (last_state-append es added)

  -- The method returns the event, and the candidate is in the new state.
  pub event_lem :
      (db : Db) (current : CandidateState)
      → IsGoverned db
      → state id db ≡ ok current
      → allowed current new ≡ true
      → (event content_hash digest now id new actor h note db ≡ (ok added, evented db))
        × (state id (evented db) ≡ ok new)
        × IsGoverned (evented db)
  unfolding event
  event_lem db current g at fits =
      let (es, stored, lawful) = g.history id in
      let done : event content_hash digest now id new actor h note db ≡ (ok added, evented db) =
        bind-at (reads (state id)) _ db db current (ap (λ r. (r, db)) at)
        ∙ (bind-at (require (allowed current new) governance_error) _ db db tt
              (unfold require in rw fits)
            ∙ append_event_lem db es g.events_numbered stored) in
      (
        done,
        new_state db es stored,
        subst (λ (out : Result CandidateEvent × Db). IsGoverned out.1) done
            ((event-Governed content_hash digest now id new actor h note).after db g),
      )
