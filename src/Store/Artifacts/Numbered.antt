-- ===== src/Store/Artifacts/Numbered.antt =====
-- Keys whose versions are `str(len(history) + 1)` at the time of writing.
use sep.Base.{
  ℕ, ◌+◌, ◌<◌, String, ◌≡◌, ◌≢◌, refl, ap, ◌∙◌, true, false, Bool-cases, inl, inr, none, [], ◌∷◌,
  length, length-append, arith, ◌==◌, eq_iff,
}
use sep.Base.Text.{str, str-injective}
use sep.Store.Artifacts.{Row, Table, at_key, select, artifact_history}
use sep.Store.Artifacts.Single.{history-cons}

not_version : (m n : ℕ) → n < m → (str n == str m) ≡ false
not_version m n h = elim (Bool-cases (str n == str m)) [
  | inl same ↦ absurd (omega (arith, str-injective n m ((eq_iff (str n) (str m)).0 same)))
  | inr other ↦ other
]

module _ {P : Type 0} where
  abbrev pub rank : String → String → Table P → ℕ
  rank kind key t = length (artifact_history kind key t)

  abbrev pub IsNumbered : String → Table P → Type 0
  IsNumbered kind [] = Unit
  IsNumbered kind (r ∷ t) =
      (r.kind ≡ kind → r.version ≡ str (rank kind r.key t + 1)) × IsNumbered kind t

  rank_here :
      (kind key : String) (r : Row P) (t : Table P)
      → at_key kind key r ≡ true
      → rank kind key (r ∷ t) ≡ rank kind key t + 1
  rank_here kind key r t h =
      ap length (history-cons kind key r t)
      ∙ rw h (length-append (artifact_history kind key t) (r.payload ∷ []))

  rank_there :
      (kind key : String) (r : Row P) (t : Table P)
      → at_key kind key r ≡ false
      → rank kind key (r ∷ t) ≡ rank kind key t
  rank_there kind key r t h = ap length (history-cons kind key r t) ∙ rw h

  same_key :
      (kind key : String) (r : Row P) → at_key kind key r ≡ true → (r.kind ≡ kind) × (r.key ≡ key)
  same_key kind key r h = ground (arith, eq_iff r.kind kind, eq_iff r.key key)

  -- No row has a number beyond the rank of its key.
  pub beyond-free :
      (kind key : String) (m : ℕ) (t : Table P)
      → IsNumbered kind t
      → rank kind key t < m
      → select kind key (str m) t ≡ none
  unfolding select
  beyond-free kind key m [] n h = refl
  beyond-free kind key m (r ∷ t) n h = elim (Bool-cases (at_key kind key r)) [
    | inl here ↦
        let grown = rank_here kind key r t here in
        let (same_kind, same) = same_key kind key r here in
        let number : r.version ≡ str (rank kind key t + 1) =
          n.0 same_kind ∙ ap (λ k. str (rank kind k t + 1)) same in
        let older = not_version m (rank kind key t + 1) (omega (arith, grown)) in
        rw (here, number, older) (beyond-free kind key m t n.1 (omega (arith, grown)))
    | inr there ↦ rw there (beyond-free kind key m t n.1 (rw (← rank_there kind key r t there) h))
  ]

  pub next-free :
      (kind key : String) (t : Table P)
      → IsNumbered kind t
      → select kind key (str (rank kind key t + 1)) t ≡ none
  next-free kind key t n = beyond-free kind key (rank kind key t + 1) t n (omega arith)

  pub other-IsNumbered :
      (kind : String) (r : Row P) (t : Table P)
      → r.kind ≢ kind
      → IsNumbered kind t
      → IsNumbered kind (r ∷ t)
  other-IsNumbered kind r t other n = (λ same. absurd (other same), n)
