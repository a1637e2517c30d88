-- ===== src/Log.antt =====
-- sys/log: queries of the system logs. Guard: the check of patterns. Sources: the two backends.
mod Guard
mod Sources
mod Flat
mod Groups
mod Tests
