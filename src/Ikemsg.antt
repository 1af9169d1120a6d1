-- ===== src/Ikemsg.antt =====
-- internal/ikemsg: the IKEv2 message codec.
pub mod Const
pub mod Simple
pub mod Notify
pub mod Ts
pub mod Config
pub mod Message
pub mod Sa
