-- ===== src/Nipc.antt =====
-- The messages between the client fsc and the server rfs: fsc/serializar_y_deserializar.c on one
-- side, rfs/serial_rfs.c on the other.
pub mod Bytes
pub mod Packet
pub mod Client
pub mod Server
pub mod RoundTrip
pub mod Requests
pub mod Answers
mod Tests
