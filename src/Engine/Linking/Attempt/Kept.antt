-- ===== src/Engine/Linking/Attempt/Kept.antt =====
-- engine/linking.py: properties of the state under the changes that `attempt` makes of it.
use sep.Base.{ℕ, ◌≡◌, ◌≢◌, refl, sym, ◌∙◌, String, inl, inr, Option, none, some, eqb, Bool-cases}
use sep.Engine.Linking.UnionFind.{find_root, union}
use sep.Engine.Linking.UnionFind.Roots.{root, Falls, find_root-Finds, eqb→eq, eqb→ne}
use sep.Engine.Linking.Attempt.{
  Link, Guards, Linking, reject_link, flag, accept, refusal, joined_at, settle_link, between,
  attempt,
}

-- A property of the state that each change keeps: other parents with the same roots, a link within
-- a class, a link that joins two classes and is not refused, a rejection, a flag.
pub record Kept (guards : Guards) (I : Linking → Type 0) : Type 0 where
  pub falls : (s : Linking) → I s → Falls s.parent
  pub reparented :
      (s : Linking) (p : ℕ → ℕ)
      → I s
      → Falls p
      → ((x : ℕ) → root p x ≡ root s.parent x)
      → I (record s { parent = p })
  pub inside :
      (link : Link) (s : Linking)
      → I s
      → root s.parent link.src ≡ root s.parent link.dst
      → I (accept link s)
  pub joining :
      (link : Link) (s : Linking) (ra rb : ℕ)
      → I s
      → ra ≡ root s.parent link.src
      → rb ≡ root s.parent link.dst
      → ra ≢ rb
      → refusal guards link ra rb s ≡ none
      → I (accept link (joined_at (union s.parent ra rb) ra rb s))
  pub rejecting :
      (link : Link) (reason : String) (s : Linking) → I s → I (reject_link link reason s)
  pub flagging : (place : ℕ) (text : String) (s : Linking) → I s → I (flag place text s)

module _ (guards : Guards) (I : Linking → Type 0) (kept : Kept guards I) where
  settle_link-Kept :
      (link : Link) (s : Linking) (ra rb : ℕ) (o : Option String)
      → I s
      → ra ≡ root s.parent link.src
      → rb ≡ root s.parent link.dst
      → ra ≢ rb
      → refusal guards link ra rb s ≡ o
      → I (settle_link link ra rb o s)
  unfolding settle_link
  settle_link-Kept link s ra rb none i a b ne h = kept.joining link s ra rb i a b ne h
  settle_link-Kept link s ra rb (some reason) i a b ne h =
      kept.flagging link.dst _ _ (kept.flagging link.src _ _ (kept.rejecting link reason s i))

  between-Kept :
      (link : Link) (s : Linking) (ra rb : ℕ)
      → I s
      → ra ≡ root s.parent link.src
      → rb ≡ root s.parent link.dst
      → I (between guards link ra rb s)
  unfolding between
  between-Kept link s ra rb i a b = elim (Bool-cases (eqb ra rb)) [
    | inl same ↦ rw same (kept.inside link s i (sym a ∙ (eqb→eq ra rb same ∙ b)))
    | inr apart ↦ rw apart (settle_link-Kept link s ra rb _ i a b (eqb→ne ra rb apart) refl)
  ]

  pub attempt-Kept : (link : Link) (s : Linking) → I s → I (attempt guards link s)
  unfolding attempt
  attempt-Kept link s i =
      let p = find_root-Finds s.parent link.src (kept.falls s i) in
      let first = find_root s.parent link.src in
      let q = find_root-Finds first.1 link.dst p.after in
      let second = find_root first.1 link.dst in
      let same : (x : ℕ) → root second.1 x ≡ root s.parent x =
        λ x. q.same_roots x ∙ p.same_roots x in
      between-Kept link (record s { parent = second.1 }) first.0 second.0
        (kept.reparented s second.1 i q.after same) (p.is_root ∙ sym (same link.src))
        (q.is_root ∙ sym (q.same_roots link.dst))
