-- ===== src/Agents/Runtime/Manifest.antt =====
-- agents/runtime.py: the manifest and the idempotency key of a run.
use sep.Base.{String, Bool, Option, none, some, List}
use sep.Base.Sort.{sorted_set}
use sep.Agents.Gateway.{ModelGateway}
use sep.Agents.Runtime.{RunManifest, AgentProgram, AgentRuntime, PromptTemplate}
use sep.Agents.Runtime.Choice.{llm_gateway}

-- What a run reads of the configuration, the snapshot and the principal.
pub record Surroundings : Type 0 where
  pub tool_schema_version : String
  pub config_version : String
  pub config_fingerprint : String
  pub snapshot_id : String
  pub policy_bundle_id : String
  pub as_of : String
  pub user_id : String
  pub desks : List String
  pub person_data : Bool

-- The list whose hash is the idempotency key.
pub record RunKey : Type 0 where
  pub name : String
  pub version : String
  pub prompt_digest : String
  pub subject : String
  pub snapshot_id : String
  pub config_fingerprint : String
  pub model_id : String
  pub tool_schema_version : String
  pub desks : List String
  pub person_data : Bool
  pub extra : List (String × String)

-- `content_hash` of a key, `stable_id("RUN", key)` and `PromptTemplate.digest`
pub record Hashes : Type 0 where
  pub content_hash : RunKey → String
  pub stable_id : String → String
  pub digest : PromptTemplate → String

model_id_of : {W : Type 0} → Option (ModelGateway W) → String
model_id_of none = "none"
model_id_of (some gateway) = gateway.model_id

mode_of : {W : Type 0} → Option (ModelGateway W) → String
mode_of none = "playbook"
mode_of (some gateway) = "llm"

module _ {W S R J : Type 0} (hashes : Hashes) (around : Surroundings) (runtime : AgentRuntime W J)
    (program : AgentProgram W S R J) where
  run_key : String → List (String × String) → RunKey
  unfolding model_id_of llm_gateway sorted_set
  run_key subject extra = record {
    name = program.name;
    version = program.version;
    prompt_digest = hashes.digest program.prompt;
    subject = subject;
    snapshot_id = around.snapshot_id;
    config_fingerprint = around.config_fingerprint;
    model_id = model_id_of (llm_gateway runtime);
    tool_schema_version = around.tool_schema_version;
    desks = sorted_set around.desks;
    person_data = around.person_data;
    extra = extra;
  }

  unfoldable pub manifest_of : String → List (String × String) → RunManifest
  unfolding run_key mode_of model_id_of llm_gateway
  manifest_of subject extra =
      let key = hashes.content_hash (run_key subject extra) in
      record {
        run_id = hashes.stable_id key;
        idempotency_key = key;
        agent = program.name;
        agent_version = program.version;
        subject = subject;
        prompt_id = program.prompt.prompt_id;
        prompt_version = program.prompt.version;
        prompt_digest = hashes.digest program.prompt;
        model_id = model_id_of (llm_gateway runtime);
        policy_mode = mode_of (llm_gateway runtime);
        tool_schema_version = around.tool_schema_version;
        config_version = around.config_version;
        config_fingerprint = around.config_fingerprint;
        snapshot_id = around.snapshot_id;
        policy_bundle_id = around.policy_bundle_id;
        as_of = around.as_of;
        principal = around.user_id;
        extra = extra;
      }
