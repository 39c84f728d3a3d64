-- ===== src/Fixer.antt =====
-- The report fixer, KFCrashReportFixer.c, with the dates of KFCDate.c.
pub mod Dates
pub mod Context
pub mod Rewriting
pub mod Tests
