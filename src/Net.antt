-- ===== src/Net.antt =====
-- kernel/src/net, tlib/include/tlib/net_constants.hpp: addresses, the ARP layer and its cache.
pub mod Address
pub mod AddressLaws
pub mod ArpCache
pub mod ArpLayer
pub mod Lookup
pub mod Resolve
pub mod Ethernet
pub mod Ip
mod Tests
