-- ===== src/Tests.antt =====
-- Concrete collaborators, runs of the definitions, and the theorems at concrete inputs.
mod World
mod Requests
mod Owners
mod Runs
mod HashCodes
mod Storage
mod Files
mod Fuse
mod Directories
mod Missing
mod Imports
mod Calls
mod Statements
mod Texts
