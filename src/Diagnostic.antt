-- ===== src/Diagnostic.antt =====
-- The diagnostic log (firmware/components/diagnostic_log).
pub mod Ring
pub mod Log
mod Tests
