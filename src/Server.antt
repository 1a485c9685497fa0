-- ===== src/Server.antt =====
-- src/server: the connections of clients and of other nodes, the files of certificates, and how the
-- servers start and stop.
pub mod Connection
pub mod Cluster
pub mod Pem
pub mod Settings
pub mod Shutdown
