-- ===== src/Process.antt =====
-- internal/process: which program owns a connection, from the tables of the IP helper library.
pub mod Flows
pub mod Table
pub mod Names
pub mod Rows
pub mod Resolver
pub mod Ipv6
pub mod Examples
