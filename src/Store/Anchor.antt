-- ===== src/Store/Anchor.antt =====
-- store/anchor.py: external, signed anchors for the audit chain. Signing keys are the cryptography
-- package's: a signer is a record of functions, and the bytes that are signed are kept as the
-- dictionary that they encode.
pub mod Tamper
pub mod Growth
use sep.Base.{
  ℕ, String, Bool, true, false, not, ◌&&◌, ◌||◌, Option, none, some, List, [], ◌∷◌, ◌++◌, length,
  find, eqb, if◌then◌else◌, ◌==◌,
}
use sep.Core.Errors.{Result, ok, err, anchor_error, ◌>>=◌, ◌>>◌}
use sep.Store.Audit.{Body, Log, audit_head, audit_hash_at, verify_audit_chain}

pub record AnchorBody : Type 0 where
  pub seq : ℕ
  pub hash : String
  pub at : String

pub record Anchor : Type 0 where
  pub seq : ℕ
  pub hash : String
  pub at : String
  pub algorithm : String
  pub key_id : String
  pub signature : String

abbrev pub anchor_body : Anchor → AnchorBody
anchor_body a = record { seq = a.seq; hash = a.hash; at = a.at }

pub record Signer : Type 0 where
  pub algorithm : String
  pub key_id : String
  pub sign : AnchorBody → String

pub record Verifier : Type 0 where
  pub algorithm : String
  pub key_id : String
  pub verify : AnchorBody → String → Bool

-- The directory of a `FileAnchorSink`: one file for each chain position.
abbrev pub Sink : Type 0
Sink = List Anchor

same_file : Anchor → Anchor → Sink → Result Sink
same_file existing anchor sink =
    if not (existing.hash == anchor.hash) then err anchor_error else ok sink

-- `FileAnchorSink.write`: a file is created exclusively, and an occupied position is a fork unless
-- it holds the same hash.
unfoldable pub write : Anchor → Sink → Result Sink
unfolding same_file
write anchor sink = elim (find (λ (a : Anchor). eqb a.seq anchor.seq) sink) [
  | some existing ↦ same_file existing anchor sink
  | none ↦ ok (anchor ∷ sink)
]

abbrev pub signed : Signer → ℕ → String → String → Anchor
signed signer seq digest now = record {
  seq = seq;
  hash = digest;
  at = now;
  algorithm = signer.algorithm;
  key_id = signer.key_id;
  signature = signer.sign (record { seq = seq; hash = digest; at = now });
}

anchor_head : Signer → String → Option (ℕ × String) → Sink → Result (Option Anchor × Sink)
anchor_head signer now none sink = ok (none, sink)
anchor_head signer now (some (seq, digest)) sink = do
  let anchor = signed signer seq digest now
  sink' ← write anchor sink
  ok (some anchor, sink')

unfoldable pub anchor_audit : Log → Signer → String → Sink → Result (Option Anchor × Sink)
unfolding anchor_head
anchor_audit log signer now sink = anchor_head signer now (audit_head log) sink

pub data Problem : Type 0 where
  another_key signature_invalid entry_missing entry_changed : ℕ → Problem

pub record AnchorReport : Type 0 where
  pub chain_valid : Bool
  pub entries : ℕ
  pub anchors : ℕ
  pub problems : List Problem

abbrev pub no_problem : List Problem → Bool
no_problem [] = true
no_problem (p ∷ ps) = false

-- `AnchorReport.ok`
unfoldable pub is_ok : AnchorReport → Bool
is_ok r = r.chain_valid && no_problem r.problems

pub against : Anchor → Option String → List Problem
against a none = entry_missing a.seq ∷ []
against a (some current) = if not (current == a.hash) then entry_changed a.seq ∷ [] else []

-- What the loop of `verify_with_anchors` reports of one anchor.
pub check_anchor : Log → Verifier → Anchor → List Problem
unfolding against
check_anchor log verifier a =
    if not (a.algorithm == verifier.algorithm) || not (a.key_id == verifier.key_id)
    then another_key a.seq ∷ []
    else if not (verifier.verify (anchor_body a) a.signature)
    then signature_invalid a.seq ∷ []
    else against a (audit_hash_at a.seq log)

pub check_anchors : Log → Verifier → List Anchor → List Problem
unfolding check_anchor
check_anchors log verifier [] = []
check_anchors log verifier (a ∷ anchors) =
    check_anchor log verifier a ++ check_anchors log verifier anchors

unfoldable pub verify_with_anchors : (Body → String) → Log → Verifier → List Anchor → AnchorReport
unfolding check_anchors
verify_with_anchors digest log verifier anchors = record {
  chain_valid = (verify_audit_chain digest log).0;
  entries = (verify_audit_chain digest log).1;
  anchors = length anchors;
  problems = check_anchors log verifier anchors;
}
