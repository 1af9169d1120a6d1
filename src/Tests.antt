-- ===== src/Tests.antt =====
-- Concrete runs of the properties: of the codec, of the data plane with the port-4500 framing, and of
-- what names the peers and derives their keys.
mod Codec
mod Cipher
mod DataPlane
mod Peers
mod Keys
mod Session
mod Driver
mod Exchanges
mod Rekeying
mod Mschap
mod Dh
mod Config
