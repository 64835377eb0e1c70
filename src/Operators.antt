-- ===== src/Operators.antt =====
-- The operators and runners of operators/: bounded programs that talk to the resource API and to
-- managed hosts. What they do outside themselves is a log of calls, each with its answer.
pub mod Effects
pub mod Resource
pub mod Reading
pub mod Api
pub mod Common
pub mod Trust
pub mod Context
pub mod Operation
pub mod HostKeys
pub mod Provisioning
pub mod Configurations
mod Tests
