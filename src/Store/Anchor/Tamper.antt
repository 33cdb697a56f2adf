-- ===== src/Store/Anchor/Tamper.antt =====
-- store/anchor.py: a log, whatever was done to it, and an anchor of an earlier one.
use sep.Base.{
  ℕ, String, ◌≡◌, refl, ap, sym, ◌∙◌, true, Bool-cases, inl, inr, Option, some, none, List, [], ◌∷◌,
  ◌++◌, map, arith, eq_iff, eqb, ◌⊎◌, and_left, and_right,
}
use sep.Store.Audit.{Body, Log, genesis, audit_head, audit_hash_at, verify_from, verify_audit_chain}
use sep.Store.Audit.Chain.{
  covered, last_hash, CollisionFree, verify_from-append, audit_head-hash, same_head-same_log,
}
use sep.Store.Anchor.{
  Anchor, Verifier, Problem, against, no_problem, is_ok, check_anchor, check_anchors,
  verify_with_anchors,
}

-- `a` is one of the anchors.
abbrev pub Among : Anchor → List Anchor → Type 0
Among a [] = ⊥
Among a (b ∷ anchors) = (a ≡ b) ⊎ Among a anchors

append-nil : {A : Type 0} (xs ys : List A) → xs ++ ys ≡ [] → (xs ≡ []) × (ys ≡ [])
append-nil [] ys h = (refl, h)
append-nil (x ∷ xs) ys h = ground arith

against-nil : (a : Anchor) (o : Option String) → against a o ≡ [] → o ≡ some a.hash
unfolding against
against-nil a none h = ground arith
against-nil a (some current) h = ground (arith, eq_iff current a.hash)

module _ (log : Log) (verifier : Verifier) where
  passed-hash :
      (a : Anchor) → check_anchor log verifier a ≡ [] → audit_hash_at a.seq log ≡ some a.hash
  unfolding check_anchor
  passed-hash a h = ground (arith, against-nil a (audit_hash_at a.seq log))

  all_passed :
      (a : Anchor) (anchors : List Anchor)
      → check_anchors log verifier anchors ≡ []
      → Among a anchors
      → check_anchor log verifier a ≡ []
  unfolding check_anchors
  all_passed a [] h m = absurd m
  all_passed a (b ∷ anchors) h (inl e) = rw e ((append-nil (check_anchor log verifier b) _ h).0)
  all_passed a (b ∷ anchors) h (inr m) =
      all_passed a anchors ((append-nil (check_anchor log verifier b) _ h).1) m

-- The entries up to one with the hash `h`.
prefix_at :
    (seq : ℕ) (h prev : String) (log : Log)
    → audit_hash_at seq log ≡ some h
    → (pre post : Log) × (log ≡ pre ++ post) × (last_hash prev pre ≡ h)
unfolding audit_hash_at
prefix_at seq h prev [] e = ground arith
prefix_at seq h prev (x ∷ log) e = elim (Bool-cases (eqb x.seq seq)) [
  | inl here ↦ (x ∷ [], log, refl, ground arith)
  | inr there ↦
      let (pre, post, split, ends) = prefix_at seq h x.hash log (ground arith) in
      (x ∷ pre, post, ap (λ (l : Log). x ∷ l) split, ends)
]

no_problem-nil : (ps : List Problem) → no_problem ps ≡ true → ps ≡ []
no_problem-nil [] h = refl
no_problem-nil (p ∷ ps) h = ground arith

module _ (digest : Body → String) (safe : CollisionFree digest) where
  -- An anchor `a` was taken of the log `genuine`, which verified, and later `log`, whatever was done
  -- to it, passes the check with anchors among which `a` is. Then `log` begins with the entries of
  -- `genuine`: of each, everything that its hash covers, in the same order. The hash function is
  -- taken to be free of collisions.
  pub anchored-prefix :
      (genuine log : Log) (verifier : Verifier) (anchors : List Anchor) (a : Anchor)
      → (verify_audit_chain digest genuine).0 ≡ true
      → audit_head genuine ≡ some (a.seq, a.hash)
      → Among a anchors
      → is_ok (verify_with_anchors digest log verifier anchors) ≡ true
      → (pre post : Log) × (log ≡ pre ++ post) × (map covered pre ≡ map covered genuine)
  unfolding verify_with_anchors is_ok verify_audit_chain
  anchored-prefix genuine log verifier anchors a v taken m passed =
      let problems = check_anchors log verifier anchors in
      let quiet =
        no_problem-nil problems
          (and_right (verify_from digest genesis log) (no_problem problems) passed) in
      let found = passed-hash log verifier a (all_passed log verifier a anchors quiet m) in
      let (pre, post, split, ends) = prefix_at a.seq a.hash genesis log found in
      let whole : verify_from digest genesis (pre ++ post) ≡ true =
        rw (← split) (and_left (verify_from digest genesis log) (no_problem problems) passed) in
      let chained =
        and_left (verify_from digest genesis pre) (verify_from digest (last_hash genesis pre) post)
          (sym (verify_from-append digest genesis pre post) ∙ whole) in
      (
        pre,
        post,
        split,
        same_head-same_log digest safe pre genuine chained v
            (ends ∙ sym (audit_head-hash a.seq a.hash genuine taken)),
      )
