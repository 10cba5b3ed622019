-- ===== src/Engine/Rules.antt =====
-- The rules of cryptiq/app/engine/rules: a module for each shape of rule, the tables of the rules, and
-- their registry with the runner. `version` is the rule set version of the settings, which every match
-- is stamped with. A rule is given the parsed call of a node, if the node is one.
pub mod KeyPair
pub mod Marker
pub mod Aes
pub mod Hashes
pub mod Tables
pub mod Runner
pub mod Contexts
pub mod Receivers
pub mod Origin
pub mod Shadowed
