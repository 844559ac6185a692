-- ===== src/Transport.antt =====
-- relay/transport: the forwarding of requests.
pub mod Http
