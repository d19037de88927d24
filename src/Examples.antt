-- ===== src/Examples.antt =====
-- The theorems at concrete inputs.
mod Fixtures
mod Verdicts
mod Limits
mod Outputs
mod Hosts
mod Problems
mod Judging
mod Program
mod Running
mod Stale
mod Validating
mod Solving
