-- ===== src/Tests.antt =====
-- The theorems at work on small examples, one module for each part of the program.
mod Backends
mod Chain
mod Handling
mod Routes
mod Checks
mod Modes
mod Queries
mod Servers
mod Sockets
mod Refusals
mod Names
