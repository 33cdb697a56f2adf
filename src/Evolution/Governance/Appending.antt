-- ===== src/Evolution/Governance/Appending.antt =====
-- evolution/governance.py: what `_event` appends to a history.
use sep.Base.{
  ◌+◌, String, ◌≡◌, ◌≢◌, refl, ap, ◌∙◌, Bool-cases, inl, inr, Option, none, List, [], ◌∷◌, arith,
  length,
}
use sep.Base.Text.{str}
use sep.Core.Errors.{Result, ok, err}
use sep.Domain.Policy.{CandidateState, CandidateEvent}
use sep.Store.Artifacts.{get_artifact, put_artifact}
use sep.Store.Artifacts.Single.{put-cases}
use sep.Store.Audit.{Body}
use sep.Store.Session.{Exec, proceed, reads, pure, ◌>>=◌, ◌>>◌}
use sep.Store.Session.Keeps.{Keeps, bind-at}
use sep.Evolution.Governance.State.{
  Payload, event_payload, Db, event_kind, candidate_kind, events, state, allowed,
}
use sep.Evolution.Governance.Methods.{put, log, append_event, event}
use sep.Evolution.Governance.Lifecycle.{
  states, IsLawful, last_from, validate-events, last_state-from,
}
use sep.Evolution.Governance.Invariant.{
  HasHistory, IsGoverned, rank-stored, MayFollow, event_row-Governed,
}

-- What follows a write, and writes to the audit log only, leaves the table.
bind-table :
    {A : Type 0} (m : Exec Db String) (f : String → Exec Db A) (db : Db)
    → ((x : String) (s : Db) → (f x s).1.artifacts ≡ s.artifacts)
    → ((m >>= f) db).1.artifacts ≡ (m db).1.artifacts
unfolding ◌>>=◌
bind-table m f db h = go (m db).0 (m db).1
  where
    go : (r : Result String) (s : Db) → (proceed r f s).1.artifacts ≡ s.artifacts
    go (ok x) s = h x s
    go (err e) s = refl

log-table :
    {A : Type 0} (digest : Body → String) (now actor action subject : String)
    (detail : List (String × String)) (a : A) (s : Db)
    → ((log digest now actor action subject detail >> pure a) s).1.artifacts ≡ s.artifacts
unfolding ◌>>=◌ log
log-table digest now actor action subject detail a s = refl

pub events-stored :
    (id : String) (db : Db) (es : List CandidateEvent)
    → HasHistory db.artifacts id es
    → events id db ≡ ok es
unfolding events
events-stored id db es stored = rw stored (validate-events es)

module _ (content_hash : Payload → String) (digest : Body → String) where
  abbrev pub the_event :
      String → String → CandidateState → String → Option String → String → CandidateEvent
  the_event now id new actor h note = record {
    candidate_id = id;
    state = new;
    actor = actor;
    at = now;
    artifact_hash = h;
    note = note;
  }

  -- What `append_event` leaves in the table is what its one write left there.
  append_event-table :
      (now id : String) (new : CandidateState) (actor : String) (h : Option String) (note : String)
      (db : Db) (es : List CandidateEvent)
      → HasHistory db.artifacts id es
      → (append_event content_hash digest now id new actor h note db).1.artifacts
        ≡ (put_artifact content_hash [] [] event_kind id
            (str (length es + 1))
            now
            (event_payload (the_event now id new actor h note))
            db.artifacts).1
  unfolding append_event
  append_event-table now id new actor h note db es stored =
      ap (λ (out : Result CandidateEvent × Db). out.1.artifacts)
        (bind-at (reads (events id)) _ db db es (ap (λ r. (r, db)) (events-stored id db es stored)))
      ∙ bind-table (put content_hash event_kind id (str (length es + 1)) now _) _ db
          (λ x s. log-table digest now actor _ id _ _ s)

  pub append_event-Governed :
      (now id : String) (new : CandidateState) (actor : String) (h : Option String) (note : String)
      (db : Db) (es : List CandidateEvent)
      → HasHistory db.artifacts id es
      → IsLawful (states es)
      → MayFollow es new
      → get_artifact candidate_kind id none db.artifacts ≢ none
      → IsGoverned db
      → IsGoverned (append_event content_hash digest now id new actor h note db).1
  append_event-Governed now id new actor h note db es stored lawful may exists g =
      let e = the_event now id new actor h note in
      let version = str (length es + 1) in
      rw (append_event-table now id new actor h note db es stored)
        (elim (put-cases content_hash event_kind id version now (event_payload e) db.artifacts) [
          | inl same ↦ rw same g
          | inr (free, added) ↦ rw added (
              event_row-Governed content_hash id version now e db.artifacts es stored lawful may
                exists (ap (λ n. str (n + 1)) (rank-stored id db es stored)) g)
        ])

  event-from :
      (now id : String) (new : CandidateState) (actor : String) (h : Option String) (note : String)
      (db : Db) (es : List CandidateEvent)
      → HasHistory db.artifacts id es
      → IsLawful (states es)
      → IsGoverned db
      → IsGoverned (event content_hash digest now id new actor h note db).1
  unfolding event ◌>>=◌ state events
  event-from now id new actor h note db [] stored lawful g = rw stored g
  event-from now id new actor h note db (x ∷ es) stored lawful g =
      rw (stored, validate-events (x ∷ es), last_state-from x es)
        (elim (Bool-cases (allowed (last_from x.state (states es)) new)) [
          | inl fits ↦ rw fits (
              append_event-Governed now id new actor h note db (x ∷ es) stored lawful fits
                (λ absent. ground (arith, g.created id absent)) g)
          | inr unfit ↦ rw unfit g
        ])

  pub event-Governed :
      (now id : String) (new : CandidateState) (actor : String) (h : Option String) (note : String)
      → Keeps IsGoverned (event content_hash digest now id new actor h note)
  event-Governed now id new actor h note = record {
    after = λ db g.
        let (es, stored, lawful) = g.history id in
        event-from now id new actor h note db es stored lawful g;
  }
