-- ===== src/Tests.antt =====
-- The theorems at concrete inputs, which their hypotheses allow.
mod Samples
mod Manifests
mod Operations
mod Registrations
mod Sorting
mod Workers
mod Drivers
mod Hosting
mod Serial
mod Wire
mod Buses
