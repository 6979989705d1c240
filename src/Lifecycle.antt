-- ===== src/Lifecycle.antt =====
-- src/investment_os/domain/state_machines.py: the four governed state machines.
pub mod Transition
pub mod Machine
pub mod Decision
pub mod Thesis
pub mod Instrument
pub mod Strategy
