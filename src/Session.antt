-- ===== src/Session.antt =====
-- internal/session: the exchanges of an IKE session.
pub mod Protected
pub mod Suites
pub mod Child
pub mod Window
pub mod Act
pub mod Rekey
pub mod Driver
