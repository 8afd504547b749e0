-- ===== src/Tests.antt =====
-- The parameters of the development at concrete functions, and what the code does on concrete inputs.
pub mod Library
mod Json
mod Setters
mod Keys
mod Init
mod Stream
mod Link
mod Command
mod Threads
mod Typed
mod Descriptors
mod Diff
mod Client
mod Files
mod Server
