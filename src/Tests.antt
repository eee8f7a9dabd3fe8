-- ===== src/Tests.antt =====
-- Concrete inputs: the services as plain functions, and each conditional theorem at an example.
pub mod Instances
pub mod Compare
pub mod Queue
pub mod Submission
pub mod Worker
pub mod Auth
pub mod Totp
pub mod Login
pub mod Comparison
pub mod Disclosure
pub mod Watch
pub mod Harness
pub mod Verdict
pub mod Nodes
pub mod Operations
pub mod Problem
pub mod Account
