-- ===== src/Net/ArpLayer.antt =====
-- kernel/src/net/arp_layer.cpp: what the layer does with a packet that arrives.
use thor_os.Prelude.{not, ◌&&◌, ◌||◌, Option, none, some, List, ◌==◌, if◌then◌else◌, ◌>>=◌}
use thor_os.Scheduler.{Scheduler}
use thor_os.Conc.WaitList.{WaitList}
use thor_os.Conc.Condition.{notify_all}
use thor_os.Net.Address.{switch_endian_16, mac3_to_mac64, mac64_to_mac3, ip2_to_ip}
use thor_os.Net.ArpCache.{CacheEntry, update_cache, Header, Frame, Interface}

-- The layer and the scheduler, and the packet that a call sends.
pub record Arp : Type 0 where
  pub cache : List CacheEntry
  pub wait_queue : WaitList
  pub sched : Scheduler
  pub sent : Option Frame

unfoldable pub reply : Interface → Header → Frame
reply i h = record {
  destination = mac3_to_mac64 h.source_hw_addr;
  header = record {
    hw_type = switch_endian_16 1;
    protocol_type = switch_endian_16 2048;
    hw_len = 6;
    protocol_len = 4;
    operation = switch_endian_16 2;
    source_hw_addr = mac64_to_mac3 i.mac_address;
    source_protocol_addr = h.target_protocol_addr;
    target_hw_addr = h.source_hw_addr;
    target_protocol_addr = h.source_protocol_addr;
  };
}

-- The part of `decode` behind its four tests of the header.
unfoldable pub handle : Interface → Header → Arp → Option Arp
handle i h a =
    let operation = switch_endian_16 h.operation in
    let source_prot = ip2_to_ip h.source_protocol_addr in
    let cache =
      if source_prot == 0
      then a.cache
      else update_cache a.cache (mac3_to_mac64 h.source_hw_addr) source_prot in
    if operation == 1
    then some (record a {
      cache = cache;
      sent = (if ip2_to_ip h.target_protocol_addr == i.ip_address then some (reply i h) else none);
    })
    else (do
      woken ← notify_all a.wait_queue a.sched
      some (record { cache = cache; wait_queue = woken.0; sched = woken.1; sent = none }))

unfoldable pub decode : Interface → Header → Arp → Option Arp
decode i h a =
    let operation = switch_endian_16 h.operation in
    if not (switch_endian_16 h.hw_type == 1)
    then some (record a { sent = none })
    else if not (switch_endian_16 h.protocol_type == 2048)
    then some (record a { sent = none })
    else if not (h.hw_len == 6) || not (h.protocol_len == 4)
    then some (record a { sent = none })
    else if not (operation == 1) && not (operation == 2)
    then some (record a { sent = none })
    else handle i h a
