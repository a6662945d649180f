-- ===== src/Device/Tests.antt =====
-- The operations of core_daemon/device.c at work on one box.
mod Box
mod Tables
mod Fire
mod System
mod Worker
