-- ===== src/Users.antt =====
-- sys/user: accounts and groups by the tools of shadow-utils.
mod Fields
mod Commands
mod Accounts
mod Queries
mod Groups
mod Records
mod Unlocking
mod Tests
