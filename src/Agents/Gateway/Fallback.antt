-- ===== src/Agents/Gateway/Fallback.antt =====
-- agents/gateway.py: `FallbackGateway`, the ordered chain of endpoints. The collected messages of the
-- failures and the log are left out.
use sep.Base.{◌≡◌, refl, List, [], ◌∷◌, ◌++◌, arith, ap, ◌∙◌}
use sep.Core.Errors.{Result, ok, err, model_error, value_error}
use sep.Agents.Gateway.{ModelRequest, ModelResponse, ModelGateway}

-- The request with the endpoint's own model id.
abbrev pub addressed : {W : Type 0} → ModelGateway W → ModelRequest → ModelRequest
addressed gateway request = record request { model_id = gateway.model_id }

module _ {W : Type 0} where
  -- `rest` is the loop's next pass.
  unfoldable pub turn :
      (W → Result ModelResponse × W) → Result ModelResponse → W → Result ModelResponse × W
  turn rest (ok response) w = (ok response, w)
  turn rest (err model_error) w = rest w
  turn rest (err e) w = (err e, w)

  unfoldable pub try_chain : List (ModelGateway W) → ModelRequest → W → Result ModelResponse × W
  unfolding turn
  try_chain [] request w = (err model_error, w)
  try_chain (gateway ∷ chain) request w =
      let (r, w') = gateway.complete (addressed gateway request) w in
      turn (try_chain chain request) r w'

  -- `FallbackGateway(chain)`: an empty chain raises ValueError.
  unfoldable pub fallback : List (ModelGateway W) → Result (ModelGateway W)
  unfolding try_chain
  fallback [] = err value_error
  fallback (gateway ∷ chain) =
      ok (record { model_id = gateway.model_id; complete = try_chain (gateway ∷ chain) })

  -- The gateways of the list were called in order, each raised ModelError, and the world went from
  -- the first to the second.
  pub data Down (request : ModelRequest) : List (ModelGateway W) → W → W → Type 0 where
    none_called : {w : W} → Down request [] w w
    one_down :
        {gateway : ModelGateway W} {chain : List (ModelGateway W)} {w w' w'' : W}
        → gateway.complete (addressed gateway request) w ≡ (err model_error, w')
        → Down request chain w' w''
        → Down request (gateway ∷ chain) w w''

  -- The gateways before the one that ended the search were down; those behind it were not called.
  pub record EndedAt (request : ModelRequest) (chain : List (ModelGateway W)) (w : W)
      (out : Result ModelResponse × W) : Type 0 where
    pub before : List (ModelGateway W)
    pub gateway : ModelGateway W
    pub behind : List (ModelGateway W)
    pub split : chain ≡ before ++ (gateway ∷ behind)
    pub world : W
    pub down : Down request before w world
    pub called : gateway.complete (addressed gateway request) world ≡ out

  -- A search that returned was ended by a gateway of the chain.
  turn-Ended :
      (gateway : ModelGateway W) (chain : List (ModelGateway W)) (request : ModelRequest) (w w' : W)
      (r : Result ModelResponse) (response : ModelResponse) (w'' : W)
      → gateway.complete (addressed gateway request) w ≡ (r, w')
      → ((w' : W)
          → try_chain chain request w' ≡ (ok response, w'')
          → EndedAt request chain w' (ok response, w''))
      → turn (try_chain chain request) r w' ≡ (ok response, w'')
      → EndedAt request (gateway ∷ chain) w (ok response, w'')
  unfolding turn
  turn-Ended gateway chain request w w' (ok answer) response w'' at later h = record {
    before = [];
    gateway = gateway;
    behind = chain;
    split = refl;
    world = w;
    down = none_called;
    called = at ∙ h;
  }
  turn-Ended gateway chain request w w' (err model_error) response w'' at later h =
      let e = later w' h in
      record {
        before = gateway ∷ e.before;
        gateway = e.gateway;
        behind = e.behind;
        split = ap (λ (l : List (ModelGateway W)). gateway ∷ l) e.split;
        world = e.world;
        down = one_down at e.down;
        called = e.called;
      }
  turn-Ended gateway chain request w w' (err _) response w'' at later h = ground arith

  -- The answer of a chain is the answer of its first gateway that is not down, asked under its own
  -- model id in the world that the calls before it left; no gateway behind it is called.
  pub try_chain-first :
      (chain : List (ModelGateway W)) (request : ModelRequest) (w : W) (response : ModelResponse)
      (w'' : W)
      → try_chain chain request w ≡ (ok response, w'')
      → EndedAt request chain w (ok response, w'')
  unfolding try_chain
  try_chain-first [] request w response w'' h = ground arith
  try_chain-first (gateway ∷ chain) request w response w'' h =
      turn-Ended gateway chain request w (gateway.complete (addressed gateway request) w).1
        (gateway.complete (addressed gateway request) w).0 response w'' refl
        (λ w' h'. try_chain-first chain request w' response w'' h') h

  -- With the gateways before it down, a gateway that returns is the chain's answer.
  pub try_chain-answers :
      (before behind : List (ModelGateway W)) (gateway : ModelGateway W) (request : ModelRequest)
      (w world w'' : W) (response : ModelResponse)
      → Down request before w world
      → gateway.complete (addressed gateway request) world ≡ (ok response, w'')
      → try_chain (before ++ (gateway ∷ behind)) request w ≡ (ok response, w'')
  unfolding try_chain turn
  try_chain-answers [] behind gateway request w world w'' response none_called h = rw h refl
  try_chain-answers (g ∷ before) behind gateway request w world w'' response (one_down at down) h =
      rw at (try_chain-answers before behind gateway request _ world w'' response down h)
