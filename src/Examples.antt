-- ===== src/Examples.antt =====
-- Runs of the models at concrete inputs.
mod Paths
mod Broker
mod Runs
mod Alerts
mod Access
mod Alarms
mod Approvals
mod Digests
mod Histories
mod Assets
mod Layers
