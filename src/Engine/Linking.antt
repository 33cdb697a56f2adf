-- ===== src/Engine/Linking.antt =====
-- engine/linking.py: trades are linked into episodes. A trade is its place in the sorted list
-- `trade_ids`, so that places compare as the texts do.
pub mod UnionFind
pub mod Attempt
pub mod Trades
pub mod Keys
pub mod Stages
pub mod Components
pub mod Episodes
pub mod Residue
pub mod Build
mod Witnesses
