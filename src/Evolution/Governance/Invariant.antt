-- ===== src/Evolution/Governance/Invariant.antt =====
-- evolution/governance.py: each candidate's history and the transition table.
use sep.Base.{
  suc, ◌+◌, String, ◌≡◌, ◌≢◌, refl, sym, ap, subst, ◌∙◌, true, false, Bool-cases, inl, inr, none,
  List, [], ◌∷◌, ◌++◌, map, arith, ◌==◌, eq_iff, eq_refl, length,
}
use sep.Base.Text.{str}
use sep.Domain.Policy.{CandidateState, draft, CandidateEvent}
use sep.Store.Artifacts.{Row, Table, at_key, row_of, get_artifact, artifact_history}
use sep.Store.Artifacts.Numbered.{IsNumbered, rank, other-IsNumbered}
use sep.Store.Artifacts.Single.{put-cases, history-cons, latest-cons}
use sep.Store.Audit.{Body}
use sep.Store.Session.Keeps.{Keeps}
use sep.Evolution.Governance.State.{
  Payload, event_payload, Db, event_kind, candidate_kind, activation_kind, allowed,
}
use sep.Evolution.Governance.Methods.{put, log}
use sep.Evolution.Governance.Lifecycle.{
  states, states-append, payloads-append, IsLawful, last_from, append-Follows,
}

-- The stored history of a candidate.
abbrev pub HasHistory : Table Payload → String → List CandidateEvent → Type 0
HasHistory t id es = artifact_history event_kind id t ≡ map event_payload es

-- Every history is lawful, there is one only where a candidate is stored, and events and
-- activations are numbered in the order of writing.
pub record Governed (t : Table Payload) : Type 0 where
  pub history :
      (id : String) → (es : List CandidateEvent) × HasHistory t id es × IsLawful (states es)
  pub created :
      (id : String)
      → get_artifact candidate_kind id none t ≡ none
      → artifact_history event_kind id t ≡ []
  pub events_numbered : IsNumbered event_kind t
  pub activations_numbered : IsNumbered activation_kind t

abbrev pub IsGoverned : Db → Type 0
IsGoverned db = Governed db.artifacts

pub empty-Governed : Governed []
unfolding artifact_history
empty-Governed = record {
  history = λ id. ([], refl, tt);
  created = λ id h. refl;
  events_numbered = tt;
  activations_numbered = tt;
}

not_event : (r : Row Payload) (id : String) → r.kind ≢ event_kind → at_key event_kind id r ≡ false
not_event r id other = ground (arith, eq_iff r.kind event_kind)

kept_candidate :
    (r : Row Payload) (id : String) (t : Table Payload)
    → get_artifact candidate_kind id none (r ∷ t) ≡ none
    → get_artifact candidate_kind id none t ≡ none
kept_candidate r id t h = ground (arith, latest-cons candidate_kind id r t)

-- A row of another kind is not seen by the histories.
pub other-Governed :
    (r : Row Payload) (t : Table Payload)
    → r.kind ≢ event_kind
    → IsNumbered activation_kind (r ∷ t)
    → Governed t
    → Governed (r ∷ t)
other-Governed r t other numbered g = record {
  history = λ id.
      let (es, stored, lawful) = g.history id in
      (es, history-cons event_kind id r t ∙ (rw (not_event r id other) stored), lawful);
  created = λ id h.
      history-cons event_kind id r t
      ∙ (rw (not_event r id other) (g.created id (kept_candidate r id t h)));
  events_numbered = other-IsNumbered event_kind r t other g.events_numbered;
  activations_numbered = numbered;
}

module _ (content_hash : Payload → String) (kind key version now : String) (payload : Payload) where
  pub put-Governed :
      kind ≢ event_kind
      → kind ≢ activation_kind
      → Keeps IsGoverned (put content_hash kind key version now payload)
  unfolding put
  put-Governed other other' = record {
    after = λ db g. elim (put-cases content_hash kind key version now payload db.artifacts) [
      | inl same ↦ rw same g
      | inr (free, added) ↦
          let row = row_of content_hash kind key version now payload in
          rw added (
            other-Governed row db.artifacts other
              (other-IsNumbered activation_kind row db.artifacts other' g.activations_numbered) g)
    ];
  }

pub log-Governed :
    (digest : Body → String) (now actor action subject : String) (detail : List (String × String))
    → Keeps IsGoverned (log digest now actor action subject detail)
unfolding log
log-Governed digest now actor action subject detail = record { after = λ db g. g }

pub apart : (a b : String) → (a == b) ≡ false → a ≢ b
apart a b h e = ground (arith, eq_iff a b)

length-payloads : (es : List CandidateEvent) → length (map event_payload es) ≡ length es
length-payloads [] = refl
length-payloads (e ∷ es) = ap suc (length-payloads es)

pub rank-stored :
    (id : String) (db : Db) (es : List CandidateEvent)
    → HasHistory db.artifacts id es
    → length es ≡ rank event_kind id db.artifacts
rank-stored id db es stored = sym (length-payloads es) ∙ sym (ap length stored)

-- An event that may follow the history of its candidate.
abbrev pub MayFollow : List CandidateEvent → CandidateState → Type 0
MayFollow [] new = new ≡ draft
MayFollow (e ∷ es) new = allowed (last_from e.state (states es)) new ≡ true

append-IsLawful :
    (es : List CandidateEvent) (e : CandidateEvent)
    → MayFollow es e.state
    → IsLawful (states es)
    → IsLawful (states (es ++ (e ∷ [])))
append-IsLawful [] e m l = (m, tt)
append-IsLawful (x ∷ es) e m l =
    (l.0, rw (states-append es e) (append-Follows x.state (states es) e.state l.1 m))

module _ (content_hash : Payload → String) (id version now : String) (e : CandidateEvent) where
  abbrev pub event_row : Row Payload
  event_row = row_of content_hash event_kind id version now (event_payload e)

  pub history_extended :
      (t : Table Payload) (es : List CandidateEvent)
      → HasHistory t id es
      → HasHistory (event_row ∷ t) id (es ++ (e ∷ []))
  history_extended t es stored =
      history-cons event_kind id event_row t
      ∙ rw (eq_refl id)
          (ap (λ (l : List Payload). l ++ (event_payload e ∷ [])) stored ∙ payloads-append es e)

  pub history_other :
      (t : Table Payload) (id' : String)
      → (id == id') ≡ false
      → artifact_history event_kind id' (event_row ∷ t) ≡ artifact_history event_kind id' t
  history_other t id' other = history-cons event_kind id' event_row t ∙ rw other

  candidates_kept :
      (t : Table Payload) (id' : String)
      → get_artifact candidate_kind id' none (event_row ∷ t)
        ≡ get_artifact candidate_kind id' none t
  candidates_kept t id' = latest-cons candidate_kind id' event_row t

  abbrev Extended : Table Payload → String → Type 0
  Extended t id' =
      (es : List CandidateEvent) × HasHistory (event_row ∷ t) id' es × IsLawful (states es)

  -- An event that may follow, of a candidate that is stored.
  pub event_row-Governed :
      (t : Table Payload) (es : List CandidateEvent)
      → HasHistory t id es
      → IsLawful (states es)
      → MayFollow es e.state
      → get_artifact candidate_kind id none t ≢ none
      → version ≡ str (rank event_kind id t + 1)
      → Governed t
      → Governed (event_row ∷ t)
  event_row-Governed t es stored lawful may exists number g = record {
    history = λ id'. elim (Bool-cases (id == id')) [
      | inl same ↦
          subst (Extended t) ((eq_iff id id').0 same)
            (es ++ (e ∷ []), history_extended t es stored, append-IsLawful es e may lawful)
      | inr other ↦
          let (es', old, lawful') = g.history id' in (es', history_other t id' other ∙ old, lawful')
    ];
    created = λ id' h. elim (Bool-cases (id == id')) [
      | inl same ↦
          let absent = sym (candidates_kept t id') ∙ h in
          absurd (
            exists (
              subst (λ k. get_artifact candidate_kind k none t ≡ none)
                (sym ((eq_iff id id').0 same)) absent))
      | inr other ↦ history_other t id' other ∙ g.created id' (sym (candidates_kept t id') ∙ h)
    ];
    events_numbered = (λ _. number, g.events_numbered);
    activations_numbered =
        other-IsNumbered activation_kind event_row t (apart event_kind activation_kind refl)
          g.activations_numbered;
  }
