-- ===== src/Store/Audit/Chain.antt =====
-- store/db.py: audit chains that verify.
use sep.Base.{
  ℕ, ◌+◌, String, ◌≡◌, ◌≢◌, ◌&&◌, refl, ap, sym, ◌∙◌, true, Option, none, some, List, [], ◌∷◌, ◌++◌,
  map, rev_onto, unturn, length, length-append, arith, eq_iff, eq_refl,
}
use sep.Store.Audit.{
  Body, Entry, Log, genesis, body, newest, head_hash, new_entry, audit, verify_from,
  verify_audit_chain, audit_head, head_of,
}

-- The hash that the next entry after `log` has to name.
abbrev pub last_hash : String → Log → String
last_hash prev [] = prev
last_hash prev (e ∷ log) = last_hash e.hash log

-- What an entry's hash covers.
abbrev pub covered : Entry → Body
covered e = body e e.prev_hash

last_hash-newest : (e : Entry) (log : Log) → head_hash (newest (e ∷ log)) ≡ last_hash e.hash log
unfolding head_hash
last_hash-newest e [] = refl
last_hash-newest e (f ∷ log) = last_hash-newest f log

pub head_hash-newest : (log : Log) → head_hash (newest log) ≡ last_hash genesis log
unfolding head_hash
head_hash-newest [] = refl
head_hash-newest (e ∷ log) = last_hash-newest e log

-- The head that an anchor signs carries the hash that the next entry would name.
pub audit_head-hash :
    (seq : ℕ) (h : String) (log : Log) → audit_head log ≡ some (seq, h) → last_hash genesis log ≡ h
unfolding audit_head head_hash
audit_head-hash seq h [] e = ground arith
audit_head-hash seq h (x ∷ log) e = sym (last_hash-newest x log) ∙ of_newest (newest (x ∷ log)) e
  where
    of_newest : (o : Option Entry) → head_of o ≡ some (seq, h) → head_hash o ≡ h
    of_newest none e = ground arith
    of_newest (some y) e = ground arith

-- A collision-free hash that never takes the value of the genesis marker.
pub record CollisionFree (digest : Body → String) : Type 0 where
  pub injective : (a b : Body) → digest a ≡ digest b → a ≡ b
  pub ne_genesis : (a : Body) → digest a ≢ genesis

module _ (digest : Body → String) where
  -- The chain read from its newest entry.
  abbrev top : Log → String
  top [] = genesis
  top (e ∷ log) = e.hash

  abbrev Chained : Log → Type 0
  Chained [] = Unit
  Chained (e ∷ log) = (e.prev_hash ≡ top log) × (digest (covered e) ≡ e.hash) × Chained log

  pub verify_from-append :
      (prev : String) (xs ys : Log)
      → verify_from digest prev (xs ++ ys)
        ≡ (verify_from digest prev xs && verify_from digest (last_hash prev xs) ys)
  unfolding verify_from
  verify_from-append prev [] ys = refl
  verify_from-append prev (e ∷ xs) ys = ground (arith, verify_from-append e.hash xs ys)

  pub verify_from-cons :
      (prev : String) (e : Entry) (log : Log)
      → verify_from digest prev (e ∷ log) ≡ true
      → (e.prev_hash ≡ prev)
        × (digest (body e prev) ≡ e.hash)
        × (verify_from digest e.hash log ≡ true)
  unfolding verify_from
  verify_from-cons prev e log v =
      ground (arith, eq_iff e.prev_hash prev, eq_iff (digest (body e prev)) e.hash)

  verified-Chained :
      (acc log : Log)
      → Chained acc
      → verify_from digest (top acc) log ≡ true
      → Chained (rev_onto log acc)
  verified-Chained acc [] c v = c
  verified-Chained acc (e ∷ log) c v =
      let (names, sealed, rest) = verify_from-cons (top acc) e log v in
      verified-Chained (e ∷ acc) log (names, rw names sealed, c) rest

  last_hash-rev_onto : (acc log : Log) → top (rev_onto log acc) ≡ last_hash (top acc) log
  last_hash-rev_onto acc [] = refl
  last_hash-rev_onto acc (e ∷ log) = last_hash-rev_onto (e ∷ acc) log

  module _ (safe : CollisionFree digest) where
    Chained-unique :
        (xs ys : Log) → Chained xs → Chained ys → top xs ≡ top ys → map covered xs ≡ map covered ys
    Chained-unique [] [] c d e = refl
    Chained-unique [] (y ∷ ys) c d e = absurd (safe.ne_genesis (covered y) (d.1 ∙ sym e))
    Chained-unique (x ∷ xs) [] c d e = absurd (safe.ne_genesis (covered x) (c.1 ∙ e))
    Chained-unique (x ∷ xs) (y ∷ ys) c d e =
        let same : covered x ≡ covered y =
          safe.injective (covered x) (covered y) (c.1 ∙ (e ∙ sym d.1)) in
        let rest =
          Chained-unique xs ys c.2 d.2 (sym c.0 ∙ (ap (λ (b : Body). b.prev) same ∙ d.0)) in
        cc (same, rest)

    -- Two logs that verify and end in one hash hold the same entries: of each, everything that its
    -- hash covers, in the same order.
    pub same_head-same_log :
        (xs ys : Log)
        → verify_from digest genesis xs ≡ true
        → verify_from digest genesis ys ≡ true
        → last_hash genesis xs ≡ last_hash genesis ys
        → map covered xs ≡ map covered ys
    same_head-same_log xs ys v w e =
        let turned =
          Chained-unique (rev_onto xs []) (rev_onto ys []) (verified-Chained [] xs tt v)
            (verified-Chained [] ys tt w)
            (last_hash-rev_onto [] xs ∙ (e ∙ sym (last_hash-rev_onto [] ys))) in
        sym (unturn covered xs) ∙ (ap (λ (l : List Body). rev_onto l []) turned ∙ unturn covered ys)

module _ (digest : Body → String) where
  entry-verifies :
      (now actor action subject : String) (detail : List (String × String)) (log : Log)
      → verify_from digest
          (last_hash genesis log)
          (new_entry digest now actor action subject detail log ∷ [])
        ≡ true
  unfolding verify_from new_entry
  entry-verifies now actor action subject detail log = simp (head_hash-newest, eq_refl)

  -- An entry that `audit` writes to a log that verifies fits the chain: the new log verifies, with
  -- one entry more.
  pub audit-verifies :
      (now actor action subject : String) (detail : List (String × String)) (log : Log)
      → (verify_audit_chain digest log).0 ≡ true
      → verify_audit_chain digest (audit digest now actor action subject detail log).1
        ≡ (true, length log + 1)
  unfolding verify_audit_chain audit
  audit-verifies now actor action subject detail log v =
      let e = new_entry digest now actor action subject detail log in
      rw (verify_from-append digest genesis log (e ∷ []), v, length-append log (e ∷ []))
        (rw (entry-verifies now actor action subject detail log))
