-- ===== src/Service.antt =====
-- sys/service: what the SDK lets into a unit file that PID 1 executes.
pub mod UnitContent
