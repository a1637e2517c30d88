-- ===== src/Remote.antt =====
-- sys/remote: what is fetched, and recognised again.
mod Digest
mod Tests
