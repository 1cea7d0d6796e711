-- ===== src/Core.antt =====
-- The core of the multicast DNS stack.
pub mod Keys
pub mod Compare
pub mod Cache
pub mod Packet
pub mod Records
pub mod Resolver
pub mod Prioq
pub mod Timeeventq
pub mod Announce
pub mod Queries
pub mod Responses
pub mod Queriers
mod Tests
mod TimerTests
mod RecordTests
mod ResolverTests
