-- ===== src/Store/Anchor/Growth.antt =====
-- store/anchor.py and store/db.py: a log that has grown since its anchors were written.
use sep.Base.{
  ℕ, ◌+◌, ◌≤◌, String, ◌≡◌, refl, ap, ◌∙◌, true, some, List, [], ◌∷◌, ◌++◌, arith, eq_refl, All,
  length,
}
use sep.Store.Audit.{
  Body, Entry, Log, newest, next_seq, new_entry, audit, audit_head, audit_hash_at,
  verify_audit_chain,
}
use sep.Store.Anchor.{
  Anchor, AnchorBody, Signer, Verifier, signed, anchor_body, against, is_ok, check_anchor,
  check_anchors, verify_with_anchors,
}

-- The database numbers the entries in the order in which they are written.
abbrev pub IsNumbered : ℕ → Log → Type 0
IsNumbered n [] = Unit
IsNumbered n (e ∷ log) = (e.seq ≡ n) × IsNumbered (n + 1) log

next_seq-newest :
    (n : ℕ) (e : Entry) (log : Log)
    → IsNumbered n (e ∷ log)
    → next_seq (newest (e ∷ log)) ≡ n + length (e ∷ log)
unfolding next_seq
next_seq-newest n e [] u = omega arith
next_seq-newest n e (f ∷ log) u = omega (arith, next_seq-newest (n + 1) f log u.1)

append-IsNumbered :
    (n : ℕ) (log : Log) (e : Entry)
    → IsNumbered n log
    → e.seq ≡ n + length log
    → IsNumbered n (log ++ (e ∷ []))
append-IsNumbered n [] e u h = (omega arith, tt)
append-IsNumbered n (x ∷ log) e u h = (u.0, append-IsNumbered (n + 1) log e u.1 (omega arith))

-- `audit` keeps the numbering.
pub audit-IsNumbered :
    (digest : Body → String) (now actor action subject : String) (detail : List (String × String))
    (log : Log)
    → IsNumbered 1 log
    → IsNumbered 1 (audit digest now actor action subject detail log).1
unfolding audit next_seq
audit-IsNumbered digest now actor action subject detail [] u = (refl, tt)
audit-IsNumbered digest now actor action subject detail (e ∷ log) u =
    append-IsNumbered 1 (e ∷ log) (new_entry digest now actor action subject detail (e ∷ log)) u
      (next_seq-newest 1 e log u)

prefix-IsNumbered : (n : ℕ) (pre post : Log) → IsNumbered n (pre ++ post) → IsNumbered n pre
prefix-IsNumbered n [] post u = tt
prefix-IsNumbered n (x ∷ pre) post u = (u.0, prefix-IsNumbered (n + 1) pre post u.1)

module _ (seq : ℕ) (h : String) where
  head-ge : (n : ℕ) (log : Log) → IsNumbered n log → audit_head log ≡ some (seq, h) → n ≤ seq
  unfolding audit_head
  head-ge n [] u e = ground arith
  head-ge n (x ∷ []) u e = ground arith
  head-ge n (x ∷ (y ∷ log)) u e = omega (arith, head-ge (n + 1) (y ∷ log) u.1 e)

  hash_at_head :
      (n : ℕ) (log : Log)
      → IsNumbered n log
      → audit_head log ≡ some (seq, h)
      → audit_hash_at seq log ≡ some h
  unfolding audit_head audit_hash_at
  hash_at_head n [] u e = ground arith
  hash_at_head n (x ∷ []) u e = ground arith
  hash_at_head n (x ∷ (y ∷ log)) u e = ground (
    arith,
    hash_at_head (n + 1) (y ∷ log) u.1 e,
    head-ge (n + 1) (y ∷ log) u.1 (unfold audit_head in e),
  )

  hash_at-append :
      (pre post : Log) → audit_hash_at seq pre ≡ some h → audit_hash_at seq (pre ++ post) ≡ some h
  unfolding audit_hash_at
  hash_at-append [] post e = ground arith
  hash_at-append (x ∷ pre) post e = ground (arith, hash_at-append pre post)

-- The verifier belongs to the signer.
pub record Matches (signer : Signer) (verifier : Verifier) : Type 0 where
  pub algorithm : signer.algorithm ≡ verifier.algorithm
  pub key_id : signer.key_id ≡ verifier.key_id
  pub accepts : (b : AnchorBody) → verifier.verify b (signer.sign b) ≡ true

-- `a` was signed when `log` had the entries of `pre`.
abbrev pub Genuine : Signer → Log → Anchor → Type 0
Genuine signer log a =
    (pre : Log) × (post : Log) × (log ≡ pre ++ post)
    × (audit_head pre ≡ some (a.seq, a.hash))
    × (a ≡ signed signer a.seq a.hash a.at)

module _ (signer : Signer) (verifier : Verifier) (m : Matches signer verifier) (log : Log)
    (u : IsNumbered 1 log) where
  Genuine-passes : (a : Anchor) → Genuine signer log a → check_anchor log verifier a ≡ []
  unfolding check_anchor against
  Genuine-passes a (pre, post, split, head, sealed) =
      let numbered = prefix-IsNumbered 1 pre post (rw (← split) u) in
      let found : audit_hash_at a.seq log ≡ some a.hash =
        rw split
          (hash_at-append a.seq a.hash pre post (hash_at_head a.seq a.hash 1 pre numbered head)) in
      let algorithm = ap (λ (x : Anchor). x.algorithm) sealed ∙ m.algorithm in
      let key_id = ap (λ (x : Anchor). x.key_id) sealed ∙ m.key_id in
      let accepted : verifier.verify (anchor_body a) a.signature ≡ true =
        ap (verifier.verify (anchor_body a)) (ap (λ (x : Anchor). x.signature) sealed)
        ∙ m.accepts (anchor_body a) in
      rw (algorithm, key_id, accepted, found) (simp eq_refl)

  All-pass :
      (anchors : List Anchor)
      → All (Genuine signer log) anchors
      → check_anchors log verifier anchors ≡ []
  unfolding check_anchors
  All-pass [] h = refl
  All-pass (a ∷ anchors) h = rw (Genuine-passes a h.0, All-pass anchors h.1)

  -- No false alarm. If the log verifies and is numbered as the database numbers it, every anchor in
  -- the list was signed by the verifier's signer when the log was shorter or as it is, and the log
  -- has only grown since, then the check passes.
  pub honest-is_ok :
      (digest : Body → String) (anchors : List Anchor)
      → (verify_audit_chain digest log).0 ≡ true
      → All (Genuine signer log) anchors
      → is_ok (verify_with_anchors digest log verifier anchors) ≡ true
  unfolding is_ok verify_with_anchors
  honest-is_ok digest anchors v h = rw (v, All-pass anchors h)
