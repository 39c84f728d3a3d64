-- ===== src/Sessions.antt =====
-- The application state monitor, Monitors/KFCrashMonitor_AppState.c: how long the application was
-- active and how often it was launched, since the launch and since the last crash.
pub mod State
pub mod Storage
pub mod Notify
mod Tests
