-- ===== src/Tests.antt =====
-- Concrete objects, a concrete platform, and runs of the code on them.
mod Data
mod Server
mod Full
mod Planning
mod Controllers
mod Bindings
mod Publishing
mod Clients
mod Routing
mod Operators
mod Copies
mod Ending
