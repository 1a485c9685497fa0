-- ===== src/Tests.antt =====
-- Concrete libraries, and the theorems at concrete inputs.
mod Codecs
mod Streams
mod Tears
mod World
mod Tables
mod Shorts
mod Filters
mod Durables
mod Lives
mod Longs
mod Logs
mod Stores
mod Memories
mod Protocols
mod Agree
mod Connections
mod Cuts
mod Shutdowns
mod Ciphers
mod Configs
mod Clients
mod Crossings
