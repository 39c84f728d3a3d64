-- ===== src/Reports.antt =====
-- The store of crash reports, KFCrashReportStoreC.c.
pub mod Ids
pub mod Names
pub mod Store
pub mod Tests
