-- ===== src/Mdns.antt =====
-- mdns.h.
pub mod Packet
pub mod Query
