-- ===== src/Cast.antt =====
-- castchannel.h, and the messages that chromecast.h sends.
pub mod Protobuf
pub mod Message
