-- ===== src/Engine/Linking/Attempt/Spans.antt =====
-- engine/linking.py: the span of an episode that more than one trade is in.
use Prim.Native.Nat.{min, max}
use mathlib.Core.Path.{ap₂}
use sep.Base.{
  ℕ, ◌+◌, ◌-◌, ◌≤◌, ◌≡◌, ◌≢◌, sym, ap, ◌∙◌, inl, inr, ◌⊎◌, none, eqb, ltb, ltb→ge, Bool-cases,
  arith,
}
use sep.Engine.Linking.UnionFind.{update, union}
use sep.Engine.Linking.UnionFind.Roots.{root, Falls, root-root, eqb→eq, eqb→ne}
use sep.Engine.Linking.UnionFind.Unions.{merged, union-Unites}
use sep.Engine.Linking.Attempt.{
  Link, Guards, Linking, reject_link, flag, accept, refusal, joined_at,
}
use sep.Engine.Linking.Attempt.Kept.{Kept}

-- The span of an episode covers its trades' own, and where there is more than one trade it is not
-- above the limit.
pub record Spans (limit : ℕ) (first last : ℕ → ℕ) (s : Linking) : Type 0 where
  pub falls : Falls s.parent
  pub starts : (x : ℕ) → s.span_lo (root s.parent x) ≤ first x
  pub ends : (x : ℕ) → last x ≤ s.span_hi (root s.parent x)
  pub bounded :
      (x y : ℕ)
      → x ≢ y
      → root s.parent x ≡ root s.parent y
      → s.span_hi (root s.parent x) ≤ s.span_lo (root s.parent x) + limit

-- Where a root goes in a union.
data Goes (a b r : ℕ) : Type 0 where
  one_of : (r ≡ a) ⊎ (r ≡ b) → merged a b r ≡ merged a b a → Goes a b r
  neither : r ≢ a → r ≢ b → merged a b r ≡ r → Goes a b r

goes : (a b r : ℕ) → Goes a b r
goes a b r = elim (Bool-cases (eqb r a)) [
  | inl at ↦ one_of (inl (eqb→eq r a at)) (ap (merged a b) (eqb→eq r a at))
  | inr off ↦ elim (Bool-cases (eqb r b)) [
    | inl at_b ↦ let e = eqb→eq r b at_b in one_of (inr e) (ground (arith, e))
    | inr off_b ↦ neither (eqb→ne r a off) (eqb→ne r b off_b) (rw (off, off_b) (ground arith))
  ]
]

root_is : (a b : ℕ) → (merged a b a ≡ a) ⊎ (merged a b a ≡ b)
root_is a b = elim (Bool-cases (ltb a b)) [
  | inl lt ↦ inl (ground (arith, lt))
  | inr ge ↦ inr (ground (arith, ge))
]

update-at : (f : ℕ → ℕ) (k v x : ℕ) → x ≡ k → update f k v x ≡ v
unfolding update
update-at f k v x e = ground (arith, e)

update-off : (f : ℕ → ℕ) (k v x : ℕ) → x ≢ k → update f k v x ≡ f x
unfolding update
update-off f k v x ne = ground (arith, ne)

module _ (guards : Guards) (first last : ℕ → ℕ) where
  within_limit :
      (link : Link) (s : Linking) (ra rb : ℕ)
      → refusal guards link ra rb s ≡ none
      → max (s.span_hi ra) (s.span_hi rb) ≤ min (s.span_lo ra) (s.span_lo rb) + guards.max_span
  unfolding refusal
  within_limit link s ra rb h =
      elim (Bool-cases (
        ltb guards.max_span
          (max (s.span_hi ra) (s.span_hi rb) - min (s.span_lo ra) (s.span_lo rb)))) [
            | inl over ↦ let e = rw over at h in absurd (ground (arith, e))
            | inr within ↦ omega (arith, ltb→ge guards.max_span _ within)
          ]

  module _ (link : Link) (s : Linking) (ra rb : ℕ) (i : Spans guards.max_span first last s)
      (ea : ra ≡ root s.parent link.src) (eb : rb ≡ root s.parent link.dst)
      (free : refusal guards link ra rb s ≡ none) where
    abbrev top : ℕ
    top = merged ra rb ra

    abbrev lo : ℕ
    lo = min (s.span_lo ra) (s.span_lo rb)

    abbrev hi : ℕ
    hi = max (s.span_hi ra) (s.span_hi rb)

    -- The new spans at the new roots.
    pub record SpanAt (r : ℕ) : Type 0 where
      pub low : update s.span_lo top lo (merged ra rb r) ≤ s.span_lo r
      pub high : s.span_hi r ≤ update s.span_hi top hi (merged ra rb r)

    not_top : (r : ℕ) → r ≢ ra → r ≢ rb → r ≢ top
    not_top r na nb e = elim (root_is ra rb) [ inl t ↦ na (e ∙ t) | inr t ↦ nb (e ∙ t) ]

    span_at : (r : ℕ) → SpanAt r
    span_at r = elim (goes ra rb r) [
      | one_of which there ↦
          let l = update-at s.span_lo top lo (merged ra rb r) there in
          let h = update-at s.span_hi top hi (merged ra rb r) there in
          elim which [
            | inl e ↦ record {
              low = omega (arith, l, ap s.span_lo e);
              high = omega (arith, h, ap s.span_hi e);
            }
            | inr e ↦ record {
              low = omega (arith, l, ap s.span_lo e);
              high = omega (arith, h, ap s.span_hi e);
            }
          ]
      | neither na nb stays ↦
          let off : merged ra rb r ≢ top = λ e. not_top r na nb (sym stays ∙ e) in
          let l = update-off s.span_lo top lo (merged ra rb r) off in
          let h = update-off s.span_hi top hi (merged ra rb r) off in
          record {
            low = omega (arith, l, ap s.span_lo stays);
            high = omega (arith, h, ap s.span_hi stays);
          }
    ]

    -- What the new span of an episode is at most, where two of its trades are different.
    abbrev Bounded : ℕ → Type 0
    Bounded r = update s.span_hi top hi r ≤ update s.span_lo top lo r + guards.max_span

    Bounded-top : (r : ℕ) → r ≡ top → Bounded r
    Bounded-top r e = omega (
      arith,
      within_limit link s ra rb free,
      update-at s.span_lo top lo r e,
      update-at s.span_hi top hi r e,
    )

    both : (r q : ℕ) → merged ra rb r ≡ merged ra rb q → (merged ra rb r ≡ top) ⊎ (r ≡ q)
    both r q e = elim (goes ra rb r) [
      | one_of which there ↦ inl there
      | neither na nb stays ↦ elim (goes ra rb q) [
        | one_of which there ↦ inl (e ∙ there)
        | neither na' nb' stays' ↦ inr (sym stays ∙ (e ∙ stays'))
      ]
    ]

    Bounded-merged :
        (x y : ℕ)
        → x ≢ y
        → merged ra rb (root s.parent x) ≡ merged ra rb (root s.parent y)
        → Bounded (merged ra rb (root s.parent x))
    Bounded-merged x y ne e = elim (both (root s.parent x) (root s.parent y) e) [
      | inl there ↦ Bounded-top _ there
      | inr same ↦ elim (goes ra rb (root s.parent x)) [
        | one_of which there ↦ Bounded-top _ there
        | neither na nb stays ↦
            let off : merged ra rb (root s.parent x) ≢ top =
              λ e. not_top (root s.parent x) na nb (sym stays ∙ e) in
            omega (
              arith,
              i.bounded x y ne same,
              update-off s.span_lo top lo (merged ra rb (root s.parent x)) off,
              update-off s.span_hi top hi (merged ra rb (root s.parent x)) off,
              ap s.span_lo stays,
              ap s.span_hi stays,
            )
      ]
    ]

    joining-Spans :
        Spans guards.max_span first last (accept link (joined_at (union s.parent ra rb) ra rb s))
    unfolding accept joined_at
    joining-Spans =
        let u = union-Unites s.parent ra rb i.falls in
        let at_a : root s.parent ra ≡ ra =
          ap (root s.parent) ea ∙ (root-root s.parent i.falls link.src ∙ sym ea) in
        let at_b : root s.parent rb ≡ rb =
          ap (root s.parent) eb ∙ (root-root s.parent i.falls link.dst ∙ sym eb) in
        let roots : (y : ℕ) → root (union s.parent ra rb).1 y ≡ merged ra rb (root s.parent y) =
          λ y. u.roots y ∙ ap₂ (λ m n. merged m n (root s.parent y)) at_a at_b in
        let at_top : (union s.parent ra rb).0 ≡ top =
          u.is_root ∙ ap₂ (λ m n. merged m n m) at_a at_b in
        record {
          falls = u.after;
          starts = λ x.
              rw (at_top, roots x) (omega (arith, (span_at (root s.parent x)).low, i.starts x));
          ends =
              λ x. rw (at_top, roots x) (omega (arith, (span_at (root s.parent x)).high, i.ends x));
          bounded = λ x y ne e.
              rw (at_top, roots x) (Bounded-merged x y ne (sym (roots x) ∙ (e ∙ roots y)));
        }

  pub Spans-Kept : Kept guards (Spans guards.max_span first last)
  unfolding reject_link flag accept
  Spans-Kept = record {
    falls = λ s i. i.falls;
    reparented = λ s p i f same. record {
      falls = f;
      starts = λ x. rw (same x) (i.starts x);
      ends = λ x. rw (same x) (i.ends x);
      bounded = λ x y ne e. rw (same x) (i.bounded x y ne (sym (same x) ∙ (e ∙ same y)));
    };
    inside = λ link s i e. record {
      falls = i.falls;
      starts = i.starts;
      ends = i.ends;
      bounded = i.bounded;
    };
    joining = λ link s ra rb i ea eb ne h. joining-Spans link s ra rb i ea eb h;
    rejecting = λ link reason s i. record {
      falls = i.falls;
      starts = i.starts;
      ends = i.ends;
      bounded = i.bounded;
    };
    flagging = λ place text s i. record {
      falls = i.falls;
      starts = i.starts;
      ends = i.ends;
      bounded = i.bounded;
    };
  }
