-- ===== src/Harness.antt =====
-- judge/harness.py.
pub mod Multiset
pub mod Nesting
pub mod Compare
pub mod Nodes
pub mod Operations
pub mod Run
