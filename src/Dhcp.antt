-- ===== src/Dhcp.antt =====
-- The DHCP client, src/ml_dhcp_client.c: its data in State, the options of a packet in Options, a
-- received packet in Packet, the packets sent in Pack, the system calls in System, the state
-- machine in Machine. The other modules hold theorems on these.
pub mod State
pub mod Options
pub mod Encoding
pub mod Fuel
pub mod Packet
pub mod Accept
pub mod Pack
pub mod Header
pub mod System
pub mod Machine
pub mod Diagram
pub mod Edges
pub mod Timers
pub mod Liveness
pub mod Sockets
pub mod Start
pub mod Release
mod Tests
