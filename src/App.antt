-- ===== src/App.antt =====
-- The program's own part of discovery: what it makes of the services that Avahi reports.
pub mod Txt
pub mod Discover
pub mod Embedded
pub mod Browse
mod Tests
