-- ===== src/Planning.antt =====
-- Planning of social actions: the action plans of groupmate/social_runtime/actions/contracts.py and
-- the validator of groupmate/social_runtime/validator.py.
pub mod Contracts
pub mod Graph
pub mod Validator
pub mod Accepted
pub mod Nodes
pub mod Sound
pub mod Fuel
mod Examples
