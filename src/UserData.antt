-- ===== src/UserData.antt =====
-- Breadcrumbs and custom keys, KFCrashUserData.c.
pub mod Breadcrumbs
pub mod Keys
pub mod Tests
