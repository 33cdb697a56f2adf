-- ===== src/Lib.antt =====
-- ASAS, an alert investigation platform: trade-surveillance alerts are linked into episodes,
-- investigated by agents, decided on by deterministic gates, and reviewed by people. Detection rules
-- and bulk policy change by one path, governance, over an append-only store with an audit chain.
--
-- The parts and their files (paths from the repository's root):
-- - Core/Errors, Core/Security: src/asas/core/errors.py and core/security.py. An exception is a value
--   of `Error`, by its class; a method that raises returns `Result`.
-- - Domain/Policy: the rule, bundle and candidate models of src/asas/domain/models.py. A record for
--   each pydantic model, a data type for each enum; a time is its ISO text.
-- - Store/Artifacts: `put_artifact`, `_put_artifact`, `get_artifact` and `artifact_history` of `Store`
--   in src/asas/store/db.py; Latest has `put_latest` and `list_artifacts`. The table is a list, newest row first. What other processes commit
--   between the SELECT and the INSERT is the argument `raced` of each attempt.
-- - Store/Audit: `audit`, `verify_audit_chain`, `audit_head`, `audit_hash_at` and `audit_entries` of the
--   same class. The log is a list, oldest entry first. The digest of an entry is the argument `digest`; where a
--   theorem needs that two entries never share a digest, `CollisionFree digest` says so, and
--   Store/Audit/Encoding has an injective function that stands in for it.
-- - Store/Anchor: src/asas/store/anchor.py. `Signer` and `Verifier` are records of functions, since
--   the signature schemes belong to the cryptography package.
-- - Store/Session: the state passing that governance is written in. Each statement of a method commits
--   by itself, so a raise leaves the earlier writes stored.
-- - Evolution/Governance: the class `Governance` of src/asas/evolution/governance.py. State has the
--   transition table and the reading methods, Methods the writing ones. They call the store and the
--   audit chain as the source does, in the source's order; no other process writes between the
--   statements of one method. `now` stands for the readings of the
--   clock, `four_eyes` for the configuration, `bundle_ref` for `stable_id`, `content_hash` for the
--   digest of a payload.
-- - Agents/Gateway: src/asas/agents/gateway.py. A gateway is a function from a request and the state of
--   the world to an answer and the world after it; the endpoint, the clock and sleeping are the
--   world's. Breaker, Resilient, Fallback and Caching are the classes of those names; Limits counts
--   the calls of the endpoint.
-- - Agents/Runtime: src/asas/agents/runtime.py. A program is a record of functions over the outer
--   world, in which models, tools and the clock are. Observation has `fit_observation`, Choice
--   `_next_action` and `_exhausted`, Loop the loop and `_checkpoint`, Manifest a run's key and manifest,
--   Run the method `run` and what reads and writes the record of a run. The tables are lists; the
--   text of a dumped model is a parameter.
-- - Engine/Hypotheses: src/asas/engine/hypotheses.py. The catalogue and the guards of `evaluate`, with
--   the entries' own functions in the record `Behaviour`; Adjudicate has `_deviation_split` and
--   `adjudicate`.
-- - Domain/Hypothesis, Domain/Cases: the models of src/asas/domain/models.py that an investigation and
--   a case consist of. A decimal is a sign, digits and a scale (Base/Decimal).
-- - Engine/Classification, Engine/Decisions, Engine/Cohorts: src/asas/engine/classification.py, and
--   `decide_case` and `form_cohorts` of src/asas/engine/decisions.py. What they read of the
--   configuration is a record that has every entry; the hashes of a case and the function `residual`
--   of engine/deviation.py are arguments.
-- - Engine/Linking: src/asas/engine/linking.py. UnionFind has `_UnionFind`, Attempt the inner function
--   `attempt` over the state of `build_episodes`, Trades, Keys and Stages its stages, Components and
--   Episodes what it makes of the components, Residue `_residue`, Build the result. A trade is its place
--   in the sorted list of trade ids; Domain/Trades has the models of events and alerts.
-- - Engine/Graph: the models and `neighborhood` of src/asas/engine/graph.py. Layers, Known and Follow say
--   what one edge and one node do to the search, Explored what the whole search has seen, Kept which
--   edges it keeps, Neighbors what is answered.
-- - Engine/Rules: src/asas/engine/rules.py, with the signals' names and kinds of engine/signals.py.
--   Engine/Rules/Validate has `validate_rule`, and Base/Number has the texts and values of Python's
--   `Decimal`.
-- - Evolution/Replay: `metrics` and `replay_detection` of src/asas/evolution/replay.py. A test of a
--   point may raise, since the evaluation of a rule may.
-- - Evolution/Shadow: `shadow_detection` of src/asas/evolution/shadow.py. A day is the first ten
--   characters of a time's text.
-- - Evolution/Bulk: what replay.py, counterexamples.py and shadow.py of src/asas/evolution/ do with a
--   bulk scope: `bulk_members`, `replay_bulk`, `attack_bulk` and `shadow_bulk`.
--
-- Bounds and fuel. `str` writes a number's digits with one unit of fuel more than the number, which
-- suffices because a number has no more digits than that (Base/Text). `chunked` has a unit of fuel
-- for each member of a group, and each chunk takes one member at least. The loop of a run has a unit
-- for each step of the budget and one more, and running out of it is `none`. `find` has
-- as many units as there are places below the item, and a parent is never above its child. `fit_observation` has a
-- unit for each item of a list and each list. The search of the graph has two units more than the
-- limit of nodes: a node is queued once, and each pass takes one from the queue. Everything
-- else recurses on a list, a text, or the number of attempts left.
--
-- Not modelled: SQL, connections and migrations; another process's event between the reading and the
-- writing of `_event`; the record of tool calls; the JSON text of a payload, which is kept as the
-- value that it denotes; message texts; the agents, their tools and the HTTP gateway; the
-- signals' values, evidence, the single hypotheses' evaluators, scoring; data ingest;
-- services, API and command line. They are input and output, or the glue of the parts above, or
-- long decimal arithmetic over trades whose results are inputs here.
mod Base
pub mod Core
pub mod Domain
pub mod Store
pub mod Evolution
pub mod Agents
pub mod Engine
