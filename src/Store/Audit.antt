-- ===== src/Store/Audit.antt =====
-- store/db.py: the hash-chained audit log of `Store`. The log holds its entries by ascending `seq`;
-- `detail` is kept as the value that its canonical JSON denotes, and `digest` is
-- `content_hash(canonical_json(...))` of an entry's body.
pub mod Chain
pub mod Encoding
use sep.Base.{
  ℕ, ◌+◌, String, ◌≡◌, Bool, true, false, not, ◌||◌, Option, none, some, List, [], ◌∷◌, ◌++◌,
  length, map, take, reverse, eqb, if◌then◌else◌, ◌==◌,
}

-- The dictionary that is hashed.
pub record Body : Type 0 where
  pub at : String
  pub actor : String
  pub action : String
  pub subject : String
  pub detail : List (String × String)
  pub prev : String

pub record Entry : Type 0 where
  pub seq : ℕ
  pub at : String
  pub actor : String
  pub action : String
  pub subject : String
  pub detail : List (String × String)
  pub prev_hash : String
  pub hash : String

abbrev pub Log : Type 0
Log = List Entry

-- "0" * 64
abbrev pub genesis : String
genesis = "0000000000000000000000000000000000000000000000000000000000000000"

abbrev pub body : Entry → String → Body
body e prev = record {
  at = e.at;
  actor = e.actor;
  action = e.action;
  subject = e.subject;
  detail = e.detail;
  prev = prev;
}

-- ORDER BY seq DESC LIMIT 1
abbrev pub newest : Log → Option Entry
newest [] = none
newest (e ∷ []) = some e
newest (e ∷ (f ∷ log)) = newest (f ∷ log)

pub head_hash : Option Entry → String
head_hash none = genesis
head_hash (some e) = e.hash

unfoldable pub next_seq : Option Entry → ℕ
next_seq none = 1
next_seq (some e) = e.seq + 1

module _ (digest : Body → String) where
  unfoldable pub new_entry :
      String → String → String → String → List (String × String) → Log → Entry
  unfolding head_hash next_seq
  new_entry now actor action subject detail log = record {
    seq = next_seq (newest log);
    at = now;
    actor = actor;
    action = action;
    subject = subject;
    detail = detail;
    prev_hash = head_hash (newest log);
    hash = digest (record {
      at = now;
      actor = actor;
      action = action;
      subject = subject;
      detail = detail;
      prev = head_hash (newest log);
    });
  }

  -- `Store.audit`, with the clock's reading `now`. It returns the digest and the new log.
  unfoldable pub audit :
      String → String → String → String → List (String × String) → Log → String × Log
  unfolding new_entry
  audit now actor action subject detail log =
      let e = new_entry now actor action subject detail log in (e.hash, log ++ (e ∷ []))

  -- The loop of `verify_audit_chain`: false at the first entry that does not fit.
  pub verify_from : String → Log → Bool
  verify_from prev [] = true
  verify_from prev (e ∷ log) =
      if not (e.prev_hash == prev) || not (digest (body e prev) == e.hash)
      then false
      else verify_from e.hash log

  unfoldable pub verify_audit_chain : Log → Bool × ℕ
  unfolding verify_from
  verify_audit_chain log = (verify_from genesis log, length log)

pub head_of : Option Entry → Option (ℕ × String)
head_of none = none
head_of (some e) = some (e.seq, e.hash)

unfoldable pub audit_head : Log → Option (ℕ × String)
unfolding head_of
audit_head log = head_of (newest log)

-- WHERE seq = ?
unfoldable pub audit_hash_at : ℕ → Log → Option String
audit_hash_at seq [] = none
audit_hash_at seq (e ∷ log) = if eqb e.seq seq then some e.hash else audit_hash_at seq log

-- An entry as `audit_entries` gives it out, without the hash before it.
pub record ListedEntry : Type 0 where
  pub seq : ℕ
  pub at : String
  pub actor : String
  pub action : String
  pub subject : String
  pub detail : List (String × String)
  pub hash : String

abbrev as_listed : Entry → ListedEntry
as_listed e = record {
  seq = e.seq;
  at = e.at;
  actor = e.actor;
  action = e.action;
  subject = e.subject;
  detail = e.detail;
  hash = e.hash;
}

-- ORDER BY seq DESC LIMIT ?
unfoldable pub audit_entries : ℕ → Log → List ListedEntry
audit_entries limit log = map as_listed (take limit (reverse log))
