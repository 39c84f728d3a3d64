-- ===== src/Monitor.antt =====
-- Crash monitors: the list of monitor APIs and the central exception handler
-- (Sources/KFCCore/KFCrashMonitor*.c).
pub mod Api
pub mod Registry
pub mod Handler
pub mod Switches
