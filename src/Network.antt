-- ===== src/Network.antt =====
-- QNetwork: frames, packets, datagrams and the TCP state machine.
pub mod Tcp
pub mod Checksum
pub mod Ip
pub mod Udp
pub mod Ethernet
pub mod Stack
