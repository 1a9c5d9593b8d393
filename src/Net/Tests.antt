-- ===== src/Net/Tests.antt =====
-- Runs of the ARP layer, and instances of its theorems.
use thor_os.Prelude.{◌^◌, ◌+◌, ◌-◌, ◌≡◌, refl, arith, true, none, some, List, [], ◌∷◌, replicate}
use thor_os.Scheduler.{Scheduler, vacant}
use thor_os.Conc.WaitList.{empty_list, is_empty}
use thor_os.Conc.Condition.{notify_all, notify_from}
use thor_os.Net.Address.{
  switch_endian_16, make_address, set_sub, ip32_to_ip, mac6_to_mac64, same_network, byte_at,
}
use thor_os.Net.ArpCache.{
  CacheEntry, entry, get_mac, is_ip_cached, find_mac, Interface, Frame, arp_request, known,
  force_start, found, again, timed_out, force_round, force_round_timeout,
}
use thor_os.Net.ArpLayer.{Arp}
use thor_os.Net.ArpLayer
use thor_os.Net.Ethernet.{decode, prepare_packet, arp, to_arp, decode-prepare_packet, tag, set_tag}
use thor_os.Checksum.{fold_carry}
use thor_os.Net.Ip
use thor_os.Net.Ip.{IpHeader, words, accumulate, prepare_packet-decode}
use thor_os.Net.Lookup.{timeout_at_once}
use thor_os.Net.Resolve.{IsHost, arp_resolves}

-- 10.0.2.15 and 10.0.2.2
own_address : make_address 10 0 2 15 ≡ 167772687
unfolding make_address set_sub
own_address = refl

neighbours : same_network 167772687 167772674 ≡ true
unfolding same_network byte_at
neighbours = refl

abbrev host : Interface
host = record { mac_address = 90520730730496; ip_address = 167772687 }

abbrev gateway : Interface
gateway = record { mac_address = 90520730730498; ip_address = 167772674 }

abbrev two_entries : List CacheEntry
two_entries = entry 7 1 ∷ entry 9 2 ∷ []

own_mac_known : force_start two_entries host 167772687 ≡ some (known 90520730730496)
unfolding force_start is_ip_cached
own_mac_known = refl

entry_known : force_start two_entries host 2 ≡ some (known 9)
unfolding force_start is_ip_cached get_mac find_mac
entry_known = refl

rounds : (force_round two_entries 2 ≡ some (found 9)) × (force_round two_entries 3 ≡ some again)
unfolding force_round is_ip_cached get_mac find_mac
rounds = (refl, refl)

timeout_at_once_example : force_round_timeout two_entries 3 5000 100 101 ≡ some timed_out
timeout_at_once_example =
    timeout_at_once two_entries 3 5000 100 101 (unfold is_ip_cached in refl) (omega arith)
      (omega arith) (omega arith)

abbrev no_processes : Scheduler
no_processes = record {
  pcb = replicate 128 vacant;
  run_queues = [] ∷ [] ∷ [] ∷ [] ∷ [];
  started = true;
  rr_quantum = 25;
  current_pid = 0;
  next_pid = 0;
  gc_pid = 1;
  idle_pid = 0;
  post_init_pid = 1;
}

abbrev fresh : Arp
fresh = record { cache = []; wait_queue = empty_list; sched = no_processes; sent = none }

nobody_waits : notify_all empty_list no_processes ≡ some (empty_list, no_processes)
unfolding notify_all notify_from is_empty
nobody_waits = refl

host-IsHost : IsHost host
host-IsHost = record { mac_bits = omega arith; ip_bits = omega arith; has_ip = omega arith }

gateway-IsHost : IsHost gateway
gateway-IsHost = record { mac_bits = omega arith; ip_bits = omega arith; has_ip = omega arith }

arp_resolves_example :
    (f : Frame) × (then_b : Arp) × (then_a : Arp) × (ArpLayer.decode gateway
        (arp_request host 167772674).header
        fresh
      ≡ some then_b)
    × (then_b.sent ≡ some f)
    × (f.destination ≡ 90520730730496)
    × (get_mac then_b.cache 167772687 ≡ some 90520730730496)
    × (ArpLayer.decode host f.header fresh ≡ some then_a)
    × (get_mac then_a.cache 167772674 ≡ some 90520730730498)
    × (then_a.wait_queue ≡ empty_list)
arp_resolves_example =
    arp_resolves host gateway fresh fresh empty_list no_processes host-IsHost gateway-IsHost
      nobody_waits

-- An ARP packet from the host to the gateway.
decode-prepare_packet_example :
    (decode (prepare_packet 90520730730496 90520730730498 arp) ≡ to_arp)
    × (mac6_to_mac64 (prepare_packet 90520730730496 90520730730498 arp).source ≡ 90520730730496)
    × (mac6_to_mac64 (prepare_packet 90520730730496 90520730730498 arp).target ≡ 90520730730498)
decode-prepare_packet_example =
    decode-prepare_packet 90520730730496 90520730730498 arp (omega arith) (omega arith)

tags_run : tag (set_tag (set_tag 0 0 3) 1 14) 1 ≡ some 14
unfolding tag set_tag
tags_run = refl

-- A UDP packet of 8 bytes from the host to the gateway.
prepare_packet-decode_example :
    (h : IpHeader) × (Ip.prepare_packet 167772687 8 167772674 17 ≡ some h)
    × (fold_carry 3 (accumulate (words h) 0) ≡ some (2 ^ 16 - 1))
    × (ip32_to_ip h.source_ip ≡ 167772687)
    × (ip32_to_ip h.target_ip ≡ 167772674)
    × (switch_endian_16 h.total_len ≡ 8 + 20)
    × (Ip.decode h ≡ Ip.dispatch 17 20)
prepare_packet-decode_example =
    prepare_packet-decode 167772687 8 167772674 17 (omega arith) (omega arith) (omega arith)
      (omega arith)
