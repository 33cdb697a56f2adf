-- ===== src/Evolution/Bulk/Agreement.antt =====
-- evolution/replay.py, counterexamples.py and shadow.py: what the three reports on one scope say of
-- one another.
use mathlib.Core.List.{Memᴰ}
use sep.Base.{
  or_true, ℕ, ◌≤◌, ◌<◌, ◌≡◌, refl, sym, ap, ◌∙◌, String, Bool, true, false, not, ◌&&◌, ◌||◌, ◌↔◌,
  List, [], ◌∷◌, ◌++◌, filter, length, elem, ltb, ltb→ge, ◌==◌, if◌then◌else◌, Bool-cases, inl, inr,
  arith, eq_iff,
}
use sep.Base.Sort.{sorted_set}
use sep.Base.Filters.{Memᴰ-filter, filter-Memᴰ, filter-filter, filter-same}
use sep.Base.Sets.{elem-sorted_set}
use sep.Domain.Policy.{BulkScope}
use sep.Evolution.Replay.{HistoryPoint, is_label}
use sep.Evolution.Bulk.{
  BulkAttackConfig, is_member, bulk_members, episode_ids, replay_bulk, attack_bulk, shadow_bulk,
}
use sep.Evolution.Shadow.{is_none_of}

ge→ltb : (m n : ℕ) → n ≤ m → ltb m n ≡ false
ge→ltb m n h = ground arith

-- Two failures were written if and only if neither test held.
two_failures :
    (a b : Bool) (s t : String)
    → is_none_of ((if a then s ∷ [] else []) ++ (if b then t ∷ [] else [])) ≡ (not a && not b)
two_failures true b s t = refl
two_failures false true s t = refl
two_failures false false s t = refl

both : (a b : Bool) → (not a && not b) ≡ true ↔ (a ≡ false) × (b ≡ false)
both a b = (λ h. ground arith, λ h. ground arith)

empty-length : (l : List HistoryPoint) → not (is_none_of l) ≡ false ↔ length l ≡ 0
empty-length [] = (λ h. refl, λ h. refl)
empty-length (p ∷ l) = (λ h. cc, λ h. absurd (omega (arith, h)))

attack_bulk-counts :
    (scope : BulkScope) (points : List HistoryPoint) (cfg : BulkAttackConfig) (sample : ℕ)
    → (attack_bulk scope points cfg).passed ≡ true
      ↔ ((replay_bulk scope points sample).labelled_escalated ≡ 0)
        × (cfg.min_bulk_cleared ≤ (replay_bulk scope points sample).labelled_cleared)
unfolding attack_bulk replay_bulk
attack_bulk-counts scope points cfg sample =
    let members = bulk_members scope points in
    let escalated = filter (is_label "ESCALATED") members in
    let cleared = length (filter (is_label "CLEARED") members) in
    let few = ltb cleared cfg.min_bulk_cleared in
    let tested =
      two_failures (not (is_none_of escalated)) few
        "a curated escalation would have been proposed for bulk review"
        "not enough curated clean history for this scope" in
    (
      λ h.
          (let (none_found, enough) = (both (not (is_none_of escalated)) few).0 (sym tested ∙ h) in
            ((empty-length escalated).0 none_found, ltb→ge cleared cfg.min_bulk_cleared enough)),
      λ r.
          tested
          ∙ (both (not (is_none_of escalated)) few).1
              ((empty-length escalated).1 r.0, ge→ltb cleared cfg.min_bulk_cleared r.1),
    )

elem_of :
    (p : HistoryPoint) (l : List HistoryPoint) → Memᴰ p l → elem p.episode_id (episode_ids l) ≡ true
elem_of p [] m = elim m [ ]
elem_of p (q ∷ l) (Memᴰ.head same) =
    rw ((eq_iff p.episode_id q.episode_id).1 (ap (λ (p : HistoryPoint). p.episode_id) same)) refl
elem_of p (q ∷ l) (Memᴰ.tail m) = rw (elem_of p l m) (or_true (p.episode_id == q.episode_id))

of_elem :
    (x : String) (l : List HistoryPoint)
    → elem x (episode_ids l) ≡ true
    → (p : HistoryPoint) × Memᴰ p l × (x ≡ p.episode_id)
of_elem x [] h = cc
of_elem x (q ∷ l) h = elim (Bool-cases (x == q.episode_id)) [
  | inl same ↦ (q, Memᴰ.head refl, (eq_iff x q.episode_id).0 same)
  | inr other ↦
      let (p, m, at) = of_elem x l (sym (ap (λ b. b || elem x (episode_ids l)) other) ∙ h) in
      (p, Memᴰ.tail m, at)
]

-- No two points share an episode id.
abbrev pub Distinct : List HistoryPoint → Type 0
Distinct points =
    (p q : HistoryPoint) → Memᴰ p points → Memᴰ q points → p.episode_id ≡ q.episode_id → p ≡ q

empty-members : (l : List HistoryPoint) → is_none_of (sorted_set (episode_ids l)) ≡ is_none_of l
unfolding sorted_set
empty-members [] = refl
empty-members (p ∷ l) =
    nonempty p.episode_id (sorted_set (episode_ids (p ∷ l)))
      (elem-sorted_set p.episode_id (episode_ids (p ∷ l)) ∙ elem_of p (p ∷ l) (Memᴰ.head refl))
  where
    nonempty : (x : String) (l : List String) → elem x l ≡ true → is_none_of l ≡ false
    nonempty x [] h = sym h
    nonempty x (y ∷ l) h = refl

module _ (scope : BulkScope) (points : List HistoryPoint) (distinct : Distinct points) where
  elem-is_member :
      (p : HistoryPoint)
      → Memᴰ p points
      → elem p.episode_id (sorted_set (episode_ids (bulk_members scope points))) ≡ is_member scope p
  unfolding bulk_members
  elem-is_member p m =
      elem-sorted_set p.episode_id (episode_ids (filter (is_member scope) points))
      ∙ elim (Bool-cases (is_member scope p)) [
        | inl belongs ↦
            elem_of p (filter (is_member scope) points)
              (filter-Memᴰ (is_member scope) p points m belongs)
            ∙ sym belongs
        | inr other ↦
            elim (Bool-cases (elem p.episode_id (episode_ids (filter (is_member scope) points)))) [
              | inr missing ↦ missing ∙ sym other
              | inl listed ↦
                  let (q, there, same) =
                    of_elem p.episode_id (filter (is_member scope) points) listed in
                  let (among, belongs) = Memᴰ-filter (is_member scope) q points there in
                  let clash : is_member scope p ≡ true =
                    ap (is_member scope) (distinct p q m among same) ∙ belongs in
                  listed ∙ sym clash
            ]
      ]

  shadow_bulk-counts :
      (sample : ℕ)
      → (shadow_bulk scope points).passed ≡ true
        ↔ ((replay_bulk scope points sample).labelled_escalated ≡ 0)
          × (0 < (replay_bulk scope points sample).would_be_bulk)
  unfolding shadow_bulk replay_bulk bulk_members
  shadow_bulk-counts sample =
      let ms = filter (is_member scope) points in
      let found =
        filter
          (λ (p : HistoryPoint).
            elem p.episode_id (sorted_set (episode_ids ms)) && is_label "ESCALATED" p)
          points in
      let same : found ≡ filter (is_label "ESCALATED") ms =
        filter-same (λ p. elem p.episode_id (sorted_set (episode_ids ms)) && is_label "ESCALATED" p)
          (λ p. is_member scope p && is_label "ESCALATED" p) points
          (λ p m. ap (λ b. b && is_label "ESCALATED" p) (elem-is_member p m))
        ∙ sym (filter-filter (is_member scope) (is_label "ESCALATED") points) in
      let tested =
        two_failures (not (is_none_of found)) (is_none_of (sorted_set (episode_ids ms)))
          "a live escalation would have been proposed for bulk"
          "policy never applied in shadow; nothing to learn" in
      (
        λ h.
            (let (none_found, some_member) =
                (both (not (is_none_of found)) (is_none_of (sorted_set (episode_ids ms)))).0
                  (sym tested ∙ h) in
              (
                ap (λ l. length l) (sym same) ∙ (empty-length found).0 none_found,
                full ms (sym (empty-members ms) ∙ some_member),
              )),
        λ r.
            tested
            ∙ (both (not (is_none_of found)) (is_none_of (sorted_set (episode_ids ms)))).1 (
              (empty-length found).1 (ap (λ l. length l) same ∙ r.0),
              empty-members ms ∙ nonempty ms r.1,
            ),
      )
    where
      full : (l : List HistoryPoint) → is_none_of l ≡ false → 0 < length l
      full [] h = cc
      full (p ∷ l) h = omega arith

      nonempty : (l : List HistoryPoint) → 0 < length l → is_none_of l ≡ false
      nonempty [] h = absurd (omega (arith, h))
      nonempty (p ∷ l) h = refl

  -- Of one scope over the same points, no two of which share an episode: the search for
  -- counterexamples passes exactly if the replay counts no escalation and at least as many cleared
  -- members as are required; and the shadow run passes exactly if the replay counts no escalation
  -- and at least one member.
  pub bulk_reports_agree :
      (cfg : BulkAttackConfig) (sample : ℕ)
      → ((attack_bulk scope points cfg).passed ≡ true
          ↔ ((replay_bulk scope points sample).labelled_escalated ≡ 0)
            × (cfg.min_bulk_cleared ≤ (replay_bulk scope points sample).labelled_cleared))
        × ((shadow_bulk scope points).passed ≡ true
            ↔ ((replay_bulk scope points sample).labelled_escalated ≡ 0)
              × (0 < (replay_bulk scope points sample).would_be_bulk))
  bulk_reports_agree cfg sample =
      (attack_bulk-counts scope points cfg sample, shadow_bulk-counts sample)
