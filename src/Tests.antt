-- ===== src/Tests.antt =====
-- Runs of the definitions on concrete inputs, and the theorems at such inputs.
pub mod Containers
pub mod Cycles
pub mod Fixtures
pub mod Machines
pub mod Text
pub mod Dictionary
pub mod Programs
pub mod Environments
pub mod Files
pub mod Stored
pub mod Sched
