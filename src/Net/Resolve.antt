-- ===== src/Net/Resolve.antt =====
-- kernel/src/net/arp_cache.cpp and arp_layer.cpp together: a request and its reply.
use thor_os.Prelude.{
  ℕ, ◌^◌, ◌<◌, ◌≡◌, ◌≢◌, refl, ap, ◌∙◌, arith, true, false, Option, none, some, ◌==◌, ◌>>=◌,
}
use thor_os.Scheduler.{Scheduler}
use thor_os.Conc.WaitList.{WaitList}
use thor_os.Conc.Condition.{notify_all}
use thor_os.Net.Address.{switch_endian_16}
use thor_os.Net.AddressLaws.{ip2_to_ip-ip_to_ip2, mac3_to_mac64-mac64_to_mac3}
use thor_os.Net.ArpCache.{update_cache, get_mac, Frame, Interface, arp_request}
use thor_os.Net.ArpLayer.{Arp, reply, handle, decode}
use thor_os.Net.Lookup.{update_cache-get_mac}

-- The addresses of an interface that can be resolved: 48 and 32 bits, and not 0.0.0.0.
pub record IsHost (i : Interface) : Type 0 where
  pub mac_bits : i.mac_address < 2 ^ 48
  pub ip_bits : i.ip_address < 2 ^ 32
  pub has_ip : i.ip_address ≢ 0

ne_zero : (n : ℕ) → n ≢ 0 → (n == 0) ≡ false
ne_zero n h = ground arith

equal_self : (n : ℕ) → (n == n) ≡ true
equal_self n = ground arith

-- What `decode` makes of a request of `a` for `b`.
decode-arp_request :
    (a b : Interface) (s : Arp)
    → IsHost a
    → IsHost b
    → decode b (arp_request a b.ip_address).header s
      ≡ some (record s {
        cache = update_cache s.cache a.mac_address a.ip_address;
        sent = some (reply b (arp_request a b.ip_address).header);
      })
unfolding decode handle arp_request switch_endian_16
decode-arp_request a b s ha hb =
    let mac = (mac3_to_mac64-mac64_to_mac3 a.mac_address ha.mac_bits).0 in
    let source = (ip2_to_ip-ip_to_ip2 a.ip_address ha.ip_bits).0 in
    let target = (ip2_to_ip-ip_to_ip2 b.ip_address hb.ip_bits).0 in
    rw (source, target, mac, ne_zero a.ip_address ha.has_ip, equal_self b.ip_address) refl

-- What `decode` makes of the reply of `b`.
decode-reply :
    (a b : Interface) (s : Arp)
    → IsHost a
    → IsHost b
    → decode a (reply b (arp_request a b.ip_address).header).header s ≡ (do
      woken ← notify_all s.wait_queue s.sched
      some (record {
        cache = update_cache s.cache b.mac_address b.ip_address;
        wait_queue = woken.0;
        sched = woken.1;
        sent = none;
      }))
unfolding decode handle arp_request reply switch_endian_16
decode-reply a b s ha hb =
    let mac = (mac3_to_mac64-mac64_to_mac3 b.mac_address hb.mac_bits).0 in
    let target = (ip2_to_ip-ip_to_ip2 b.ip_address hb.ip_bits).0 in
    rw (target, mac, ne_zero b.ip_address hb.has_ip) refl

-- Address resolution: a host that decodes the request of another for its IP address replies to the
-- hardware address of the other, and knows it from then on; and the other, when it decodes the
-- reply and the processes that wait can be woken, knows the hardware address that it asked for.
-- The addresses have 48 and 32 bits, and the IP addresses are not 0.
pub arp_resolves :
    (a b : Interface) (at_a at_b : Arp) (w : WaitList) (s : Scheduler)
    → IsHost a
    → IsHost b
    → notify_all at_a.wait_queue at_a.sched ≡ some (w, s)
    → (f : Frame) × (then_b : Arp) × (then_a : Arp) × (decode b
          (arp_request a b.ip_address).header
          at_b
        ≡ some then_b)
      × (then_b.sent ≡ some f)
      × (f.destination ≡ a.mac_address)
      × (get_mac then_b.cache a.ip_address ≡ some a.mac_address)
      × (decode a f.header at_a ≡ some then_a)
      × (get_mac then_a.cache b.ip_address ≡ some b.mac_address)
      × (then_a.wait_queue ≡ w)
unfolding reply arp_request
arp_resolves a b at_a at_b w s ha hb woken = (
  reply b (arp_request a b.ip_address).header,
  record at_b {
    cache = update_cache at_b.cache a.mac_address a.ip_address;
    sent = some (reply b (arp_request a b.ip_address).header);
  },
  record {
    cache = update_cache at_a.cache b.mac_address b.ip_address;
    wait_queue = w;
    sched = s;
    sent = none;
  },
  decode-arp_request a b at_b ha hb,
  refl,
  (mac3_to_mac64-mac64_to_mac3 a.mac_address ha.mac_bits).0,
  (update_cache-get_mac at_b.cache a.mac_address a.ip_address).0,
  decode-reply a b at_a ha hb
      ∙ ap
          (λ (o : Option (WaitList × Scheduler)). o >>= λ u. some (record {
            cache = update_cache at_a.cache b.mac_address b.ip_address;
            wait_queue = u.0;
            sched = u.1;
            sent = none;
          }))
          woken,
  (update_cache-get_mac at_a.cache b.mac_address b.ip_address).0,
  refl,
)
