-- ===== src/Filter.antt =====
-- The filter: which detail level a command's telemetry is emitted at.
pub mod Level
pub mod Settings
pub mod Rules
pub mod Totality
pub mod Precedence
