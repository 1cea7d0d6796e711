-- ===== src/Common.antt =====
-- The common library: byte strings, names, text records and times.
pub mod StringList
pub mod Utf8
pub mod Label
pub mod Domain
pub mod Names
pub mod Services
pub mod Timeval
mod Tests
mod ServiceTests
