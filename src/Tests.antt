-- ===== src/Tests.antt =====
-- Concrete runs of the theorems, on one small plant.
mod Fixtures
mod Names
mod Requests
mod Stores
mod Access
mod Evidence
mod Logs
mod Papers
mod Library
mod Speech
mod Doors
mod Answers
