-- ===== src/Tests.antt =====
-- Concrete runs of the theorems.
mod Data
mod Clocks
mod Store
mod Coordination
mod Members
mod Clerk
mod Traces
mod Trees
mod Experiment
