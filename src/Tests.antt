-- ===== src/Tests.antt =====
-- A database in memory and an environment to run the model in, with the examples that use them.
mod InMemory
mod Example
mod Runs
mod Cipher
mod Witnesses
mod Accounts
mod Codes
mod Hashes
mod Administration
mod Updates
mod Theft
mod Incidents
mod Clients
mod Startup
