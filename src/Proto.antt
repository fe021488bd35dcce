-- ===== src/Proto.antt =====
-- proto.hpp and framed_tls.hpp: the binary protocol of the devices and the servers.
pub mod Result
pub mod MsgType
pub mod DeviceType
pub mod Messages
pub mod Text
pub mod Truncated
pub mod Fits
pub mod Bytes
pub mod Encode
pub mod Reader
pub mod Decode
pub mod RoundTrip
pub mod Ranges
pub mod Frame
