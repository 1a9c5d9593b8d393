-- ===== src/Net/ArpCache.antt =====
-- kernel/src/net/arp_cache.cpp: the hardware addresses that are known for IP addresses. A failed
-- assertion is the result `none`. Waiting for a reply is left to the caller, who gives the cache of
-- the moment when the wait ends.
use thor_os.Prelude.{
  ℕ, ◌+◌, ◌-◌, ◌%◌, ◌^◌, Bool, true, false, ◌&&◌, ◌||◌, Option, none, some, List, [], ◌∷◌, ◌==◌,
  ltb, if◌then◌else◌, ◌>>=◌,
}
use thor_os.Net.Address.{switch_endian_16, mac64_to_mac3, ip_to_ip2}

pub record CacheEntry : Type 0 where
  pub mac : ℕ
  pub ip : ℕ

abbrev pub entry : ℕ → ℕ → CacheEntry
entry mac ip = record { mac = mac; ip = ip }

unfoldable pub update_cache : List CacheEntry → ℕ → ℕ → List CacheEntry
update_cache [] mac ip = entry mac ip ∷ []
update_cache (e ∷ es) mac ip =
    let rest = update_cache es mac ip in
    if e.mac == mac && e.ip == ip
    then e ∷ es
    else if e.mac == mac || e.ip == ip
    then entry mac ip ∷ es
    else e ∷ rest

unfoldable pub is_mac_cached : List CacheEntry → ℕ → Bool
is_mac_cached [] mac = false
is_mac_cached (e ∷ es) mac = let rest = is_mac_cached es mac in if e.mac == mac then true else rest

unfoldable pub is_ip_cached : List CacheEntry → ℕ → Bool
is_ip_cached [] ip = false
is_ip_cached (e ∷ es) ip = let rest = is_ip_cached es ip in if e.ip == ip then true else rest

unfoldable pub find_ip : List CacheEntry → ℕ → Option ℕ
find_ip [] mac = none
find_ip (e ∷ es) mac = let rest = find_ip es mac in if e.mac == mac then some e.ip else rest

unfoldable pub get_ip : List CacheEntry → ℕ → Option ℕ
get_ip c mac = if is_mac_cached c mac then find_ip c mac else none

unfoldable pub find_mac : List CacheEntry → ℕ → Option ℕ
find_mac [] ip = none
find_mac (e ∷ es) ip = let rest = find_mac es ip in if e.ip == ip then some e.mac else rest

unfoldable pub get_mac : List CacheEntry → ℕ → Option ℕ
get_mac c ip = if is_ip_cached c ip then find_mac c ip else none

-- The header of an ARP packet, as the processor reads its fields.
pub record Header : Type 0 where
  pub hw_type : ℕ
  pub protocol_type : ℕ
  pub hw_len : ℕ
  pub protocol_len : ℕ
  pub operation : ℕ
  pub source_hw_addr : List ℕ
  pub source_protocol_addr : List ℕ
  pub target_hw_addr : List ℕ
  pub target_protocol_addr : List ℕ

-- A packet that is handed to the Ethernet layer, with the destination of its descriptor.
pub record Frame : Type 0 where
  pub destination : ℕ
  pub header : Header

-- What the ARP layer uses of an interface.
pub record Interface : Type 0 where
  pub mac_address : ℕ
  pub ip_address : ℕ

unfoldable pub arp_request : Interface → ℕ → Frame
arp_request i ip = record {
  destination = 2 ^ 48 - 1;
  header = record {
    hw_type = switch_endian_16 1;
    protocol_type = switch_endian_16 2048;
    hw_len = 6;
    protocol_len = 4;
    operation = switch_endian_16 1;
    source_hw_addr = mac64_to_mac3 i.mac_address;
    source_protocol_addr = ip_to_ip2 i.ip_address;
    target_hw_addr = mac64_to_mac3 0;
    target_protocol_addr = ip_to_ip2 ip;
  };
}

-- What `get_mac_force` does before it waits: it has the answer, it sends a request, or an assertion
-- fails.
pub data Asked : Type 0 where
  known : ℕ → Asked
  requested : Frame → Asked

unfoldable pub force_start : List CacheEntry → Interface → ℕ → Option Asked
force_start c i ip =
    if is_ip_cached c ip
    then (do mac ← get_mac c ip; some (known mac))
    else if i.ip_address == ip
    then some (known i.mac_address)
    else some (requested (arp_request i ip))

-- One round of its loop, after a wait.
pub data Round : Type 0 where
  found : ℕ → Round
  timed_out : Round
  again : Round

unfoldable pub force_round : List CacheEntry → ℕ → Option Round
force_round c ip =
    if is_ip_cached c ip then (do mac ← get_mac c ip; some (found mac)) else some again

-- The same with a timeout of `ms`, from the times `start` and `end` in milliseconds.
unfoldable pub force_round_timeout : List CacheEntry → ℕ → ℕ → ℕ → ℕ → Option Round
force_round_timeout c ip ms start end =
    if is_ip_cached c ip
    then (do mac ← get_mac c ip; some (found mac))
    else if ltb ms ((start + 2 ^ 64 - end) % 2 ^ 64)
    then some timed_out
    else some again
