-- ===== src/Client.antt =====
-- imuaclient: the client of the chain: its queries, its transactions and its web socket.
pub mod Pages
pub mod Ws
pub mod Subscribe
pub mod Messages
pub mod Shapes
pub mod Tests
