-- ===== src/Tests.antt =====
-- Runs of the model on concrete tasks, with the server in memory.
mod Samples
mod Queues
mod Runs
mod Machine
mod Stores
mod Executions
mod Leaders
mod Logs
mod Startup
mod Journeys
mod Terms
