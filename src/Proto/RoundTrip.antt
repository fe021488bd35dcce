-- ===== src/Proto/RoundTrip.antt =====
-- The encoders of proto.hpp against its decoders.
pub mod Device
pub mod Central
pub mod Sync
