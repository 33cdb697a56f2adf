-- ===== src/Agents.antt =====
-- src/asas/agents: the calls of language models, and the loop that every agent runs in.
pub mod Gateway
pub mod Runtime
