-- ===== src/Exec.antt =====
-- sys/exec: how the SDK runs a command. The children follow its files: the capped buffer, the
-- child's environment, the runner, the streamed output, secrets.
mod CappedBuffer
mod Env
mod Output
mod Runner
mod Secret
pub mod Host
mod Tests
