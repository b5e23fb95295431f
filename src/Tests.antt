-- ===== src/Tests.antt =====
-- Concrete runs of the theorems on small inputs.
pub mod Queues
pub mod Windows
pub mod Frames
pub mod Sessions
pub mod Requests
pub mod Trips
pub mod Travels
pub mod Waits
pub mod Configs
pub mod Arrivals
pub mod Packed
