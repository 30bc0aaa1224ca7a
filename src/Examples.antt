-- ===== src/Examples.antt =====
-- Tests on concrete inputs.
pub mod Trees
pub mod Codes
pub mod Chains
pub mod Rounds
pub mod Wire
pub mod Nodes
pub mod Payments
pub mod Miners
pub mod Sessions
