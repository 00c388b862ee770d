-- ===== src/Tests.antt =====
-- Runs on concrete inputs: the data, and one module of examples for each part.
pub mod Data
mod Stores
mod Serving
mod Codecs
mod Database
mod Starting
mod Agents
mod Sending
mod Linting
mod Running
mod Auditing
mod Files
