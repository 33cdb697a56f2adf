-- ===== src/Evolution/Governance/Lifecycle.antt =====
-- evolution/governance.py: the states of a candidate, one after another.
use sep.Base.{◌≡◌, refl, sym, ap, ◌∙◌, Bool, true, false, List, [], ◌∷◌, ◌++◌, map, arith}
use sep.Core.Errors.{ok, ok-injective}
use sep.Domain.Policy.{
  CandidateState, draft, replayed, counterexamples_passed, counterexamples_failed, shadow_passed,
  shadow_failed, awaiting_approval, released, rejected, CandidateEvent,
}
use sep.Evolution.Governance.State.{
  Payload, event_payload, as_event, allowed, validate_all, last_state,
}

abbrev pub states : List CandidateEvent → List CandidateState
states = map (λ (e : CandidateEvent). e.state)

pub states-append :
    (es : List CandidateEvent) (e : CandidateEvent)
    → states (es ++ (e ∷ [])) ≡ states es ++ (e.state ∷ [])
states-append [] e = refl
states-append (x ∷ es) e = ap (λ (l : List CandidateState). x.state ∷ l) (states-append es e)

pub payloads-append :
    (es : List CandidateEvent) (e : CandidateEvent)
    → map event_payload es ++ (event_payload e ∷ []) ≡ map event_payload (es ++ (e ∷ []))
payloads-append [] e = refl
payloads-append (x ∷ es) e = ap (λ (l : List Payload). event_payload x ∷ l) (payloads-append es e)

-- Each state is allowed after the one before it.
abbrev pub Follows : CandidateState → List CandidateState → Type 0
Follows s [] = Unit
Follows s (t ∷ ts) = (allowed s t ≡ true) × Follows t ts

abbrev pub IsLawful : List CandidateState → Type 0
IsLawful [] = Unit
IsLawful (s ∷ ss) = (s ≡ draft) × Follows s ss

abbrev pub last_from : CandidateState → List CandidateState → CandidateState
last_from s [] = s
last_from s (t ∷ ts) = last_from t ts

pub validate-events :
    (es : List CandidateEvent) → validate_all as_event (map event_payload es) ≡ ok es
validate-events [] = refl
validate-events (e ∷ es) = rw (validate-events es)

pub last_state-from :
    (e : CandidateEvent) (es : List CandidateEvent)
    → last_state (e ∷ es) ≡ ok (last_from e.state (states es))
last_state-from e [] = refl
last_state-from e (f ∷ es) = last_state-from f es

pub append-Follows :
    (s : CandidateState) (ss : List CandidateState) (new : CandidateState)
    → Follows s ss
    → allowed (last_from s ss) new ≡ true
    → Follows s (ss ++ (new ∷ []))
append-Follows s [] new f a = (a, tt)
append-Follows s (t ∷ ss) new f a = (f.0, append-Follows t ss new f.1 a)

-- The states still to come on the only way to a release.
unfoldable pub route : CandidateState → List CandidateState
route draft = replayed ∷ counterexamples_passed ∷ shadow_passed ∷ awaiting_approval ∷ released ∷ []
route replayed = counterexamples_passed ∷ shadow_passed ∷ awaiting_approval ∷ released ∷ []
route counterexamples_passed = shadow_passed ∷ awaiting_approval ∷ released ∷ []
route shadow_passed = awaiting_approval ∷ released ∷ []
route awaiting_approval = released ∷ []
route _ = []

-- From these a release can be reached.
on_route : CandidateState → Bool
on_route counterexamples_failed = false
on_route shadow_failed = false
on_route rejected = false
on_route _ = true

route-step :
    (s t : CandidateState)
    → allowed s t ≡ true
    → on_route t ≡ true
    → (on_route s ≡ true) × (t ∷ route t ≡ route s)
unfolding allowed route on_route
route-step draft t a o = ground arith
route-step replayed t a o = ground arith
route-step counterexamples_passed t a o = ground arith
route-step shadow_passed t a o = ground arith
route-step awaiting_approval t a o = ground arith
route-step _ t a o = ground arith

Follows-route :
    (s : CandidateState) (ss : List CandidateState)
    → Follows s ss
    → last_from s ss ≡ released
    → (on_route s ≡ true) × (ss ≡ route s)
unfolding route on_route
Follows-route s [] f e = (rw e, rw e)
Follows-route s (t ∷ ss) f e =
    let (o, rest) = Follows-route t ss f.1 e in
    let (o', head) = route-step s t f.0 o in
    (o', ap (λ (l : List CandidateState). t ∷ l) rest ∙ head)

-- A lawful history that ends in RELEASED is the whole way, with nothing before, between or beside.
pub released-whole_way :
    (e : CandidateEvent) (es : List CandidateEvent)
    → IsLawful (states (e ∷ es))
    → last_state (e ∷ es) ≡ ok released
    → states (e ∷ es) ≡ draft ∷ route draft
released-whole_way e es f h =
    let last = ok-injective _ _ (sym (last_state-from e es) ∙ h) in
    let whole = (Follows-route e.state (states es) f.1 last).1 in cc (f.0, whole)
