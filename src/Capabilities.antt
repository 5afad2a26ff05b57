-- ===== src/Capabilities.antt =====
-- internal/capabilities: the broker that turns an integration's request into an authorised call.
pub mod Policy
pub mod Authorize
pub mod Authority
pub mod Budget
pub mod Headers
pub mod Passing
pub mod Cache
pub mod Broker
pub mod Invocation
pub mod Admission
