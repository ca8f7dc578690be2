-- ===== src/Examples.antt =====
-- The theorems at concrete inputs.
mod Topics
mod Triggers
mod Settings
mod Repeats
mod Streams
mod Messages
mod Broker
mod Schedules
mod Assemblies
mod Reading
mod Goroutines
mod Deliveries
mod Leaders
mod Flows
mod Events
