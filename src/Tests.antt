-- ===== src/Tests.antt =====
-- Runs on concrete inputs, and the properties applied to them.
pub mod Loopback
mod OnProtocol
mod OnInbox
mod OnOutbox
mod OnSession
mod OnResources
mod OnDevice
mod OnBridge
mod OnThreads
