-- ===== src/Net.antt =====
-- kernel/net/queue.cpp and kernel/net/packet.hpp: the network layer.
pub mod Packet
pub mod Checksum
pub mod Frame
pub mod Arp
pub mod Timer
pub mod Ip
pub mod Pool
mod Tests
pub mod Dhcp
