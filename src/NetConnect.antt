-- ===== src/NetConnect.antt =====
-- my_code/net_connect: sockets and what is sent over them.
pub mod IpLocation
pub mod NetFile
pub mod Interface
