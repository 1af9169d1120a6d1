-- ===== src/Esp.antt =====
-- internal/esp: the ESP data plane. Replay is replay.go; Trailer and Packet are esp.go.
pub mod Replay
pub mod Trailer
pub mod Packet
