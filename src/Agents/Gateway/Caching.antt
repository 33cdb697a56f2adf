-- ===== src/Agents/Gateway/Caching.antt =====
-- agents/gateway.py: `CachingGateway`. The table `model_cache` is a list of its rows, newest first,
-- beside the world of the inner gateway; `request_hash` is the digest of a request. The row's time is
-- left out, since nothing reads it; no other process writes between the query and the insertion.
use sep.Base.{
  String, ◌≡◌, refl, sym, true, Option, none, some, List, ◌∷◌, ◌==◌, find, any, subst,
  if◌then◌else◌, Option-cases, inl, inr, arith, eq_refl,
}
use sep.Core.Errors.{Result, ok, err}
use sep.Store.Artifacts.Lookup.{any-find-none}
use sep.Agents.Gateway.{ModelRequest, ModelResponse, ModelGateway}

pub record CacheRow : Type 0 where
  pub request_hash : String
  pub model_id : String
  pub response : String

abbrev pub Cache : Type 0
Cache = List CacheRow

abbrev pub lookup : String → Cache → Option CacheRow
lookup hash cache = find (λ (r : CacheRow). r.request_hash == hash) cache

-- `insert_ignore`: a row whose key is taken is dropped.
unfoldable pub insert_ignore : CacheRow → Cache → Cache
insert_ignore row cache =
    if any (λ (r : CacheRow). r.request_hash == row.request_hash) cache then cache else row ∷ cache

-- The response that a row stands for.
abbrev pub recorded : String → String → ModelResponse
recorded text model_id = record {
  text = text;
  model_id = model_id;
  cached = true;
  prompt_tokens = none;
  completion_tokens = none;
}

module _ {W : Type 0} (request_hash : ModelRequest → String) (inner : ModelGateway W) where
  abbrev row_of : ModelRequest → ModelResponse → CacheRow
  row_of request response = record {
    request_hash = request_hash request;
    model_id = response.model_id;
    response = response.text;
  }

  keep : ModelRequest → Result ModelResponse → Cache × W → Result ModelResponse × (Cache × W)
  unfolding insert_ignore
  keep request (err e) s = (err e, s)
  keep request (ok response) (cache, w) =
      (ok response, (insert_ignore (row_of request response) cache, w))

  answer : ModelRequest → Option CacheRow → Cache × W → Result ModelResponse × (Cache × W)
  unfolding keep
  answer request (some row) s = (ok (recorded row.response row.model_id), s)
  answer request none (cache, w) =
      let (r, w') = inner.complete request w in keep request r (cache, w')

  unfoldable pub complete : ModelRequest → Cache × W → Result ModelResponse × (Cache × W)
  unfolding answer
  complete request (cache, w) = answer request (lookup (request_hash request) cache) (cache, w)

  -- The row under `hash` holds this text and model.
  abbrev Holds : String → ModelResponse → Cache → Type 0
  Holds hash response cache =
      lookup hash cache
      ≡ some
          (record { request_hash = hash; model_id = response.model_id; response = response.text })

  row-Holds :
      (request : ModelRequest) (r : ModelResponse) (cache : Cache)
      → lookup (request_hash request) cache ≡ none
      → Holds (request_hash request) r (insert_ignore (row_of request r) cache)
  unfolding insert_ignore
  row-Holds request r cache free =
      rw (any-find-none (λ (x : CacheRow). x.request_hash == request_hash request) cache free)
        (rw (eq_refl (request_hash request)) refl)

  keep-Holds :
      (request : ModelRequest) (r : Result ModelResponse) (cache cache' : Cache) (w w' : W)
      (response : ModelResponse)
      → lookup (request_hash request) cache ≡ none
      → keep request r (cache, w) ≡ (ok response, (cache', w'))
      → Holds (request_hash request) response cache'
  unfolding keep
  keep-Holds request (err e) cache cache' w w' response free h = ground arith
  keep-Holds request (ok r) cache cache' w w' response free h =
      let table : insert_ignore (row_of request r) cache ≡ cache' = cc h in
      let same : r ≡ response = cc h in
      subst (Holds (request_hash request) response) table (
        subst
          (λ (x : ModelResponse).
            Holds (request_hash request) x (insert_ignore (row_of request r) cache))
          same (row-Holds request r cache free))

  -- A request that was answered once is answered the same way from then on, as long as the table is
  -- kept: the same text and model, marked as cached, without a call of the inner gateway.
  pub complete-replayed :
      (request : ModelRequest) (cache cache' : Cache) (w w' later : W) (response : ModelResponse)
      → complete request (cache, w) ≡ (ok response, (cache', w'))
      → complete request (cache', later)
        ≡ (ok (recorded response.text response.model_id), (cache', later))
  unfolding complete answer
  complete-replayed request cache cache' w w' later response h =
      elim (Option-cases (lookup (request_hash request) cache)) [
        | inl e ↦ rw (
            keep-Holds request (inner.complete request w).0 cache cache'
              (inner.complete request w).1 w' response e (rw e at h))
        | inr (row, e) ↦
            let seen : (ok (recorded row.response row.model_id), (cache, w))
                ≡ (ok response, (cache', w')) =
              rw e at h in
            let table : cache ≡ cache' = cc seen in
            let same : recorded row.response row.model_id ≡ response = cc seen in
            rw (sym table, sym same, e)
      ]
