-- ===== src/Tests.antt =====
-- A run of the whole server, and examples at concrete inputs.
mod Run
mod Data
mod Bytes
mod Sessions
mod Accounts
mod Rooms
mod Manor
mod Polite
mod Threads
mod Replies
mod Listing
mod SignIn
