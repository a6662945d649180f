-- ===== src/Device.antt =====
-- The device module: core_daemon/device.h and core_daemon/device.c, in one child for each part.
pub mod Types
pub mod Find
pub mod Slots
pub mod Async
pub mod Event
pub mod Registry
pub mod Timers
pub mod Delays
pub mod Linkages
pub mod Check
pub mod Process
mod Tests
pub mod System
