-- ===== src/Paths.antt =====
-- sys/fs/protected.go, sys/fs/validate.go and sys/remote/paths.go: which paths the SDK may write
-- to and delete. Clean is the lexical part of package filepath that they rest on.
pub mod Clean
mod Protected
mod Resolve
mod Destination
mod Tests
