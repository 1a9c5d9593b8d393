-- ===== src/Net/Lookup.antt =====
-- kernel/src/net/arp_cache.cpp: what the cache answers after an update.
use thor_os.Prelude.{
  ℕ, ◌+◌, ◌-◌, ◌%◌, ◌^◌, ◌<◌, ◌≡◌, ◌≢◌, refl, sym, ◌∙◌, arith, true, false, Option, none, some,
  List, [], ◌∷◌, ltb, if_true, if_false, elim-if,
}
use thor_os.Net.ArpCache.{
  CacheEntry, update_cache, is_mac_cached, is_ip_cached, find_ip, get_ip, find_mac, get_mac,
  force_round_timeout, timed_out,
}

-- The searches agree with the tests before them.
uncached-find_mac :
    (c : List CacheEntry) (ip : ℕ) → is_ip_cached c ip ≡ false → find_mac c ip ≡ none
unfolding is_ip_cached find_mac
uncached-find_mac [] ip h = refl
uncached-find_mac (e ∷ es) ip h = ground (arith, uncached-find_mac es ip)

pub get_mac-find_mac : (c : List CacheEntry) (ip : ℕ) → get_mac c ip ≡ find_mac c ip
unfolding get_mac
get_mac-find_mac c ip =
    elim-if (λ (o : Option ℕ). o ≡ find_mac c ip) (is_ip_cached c ip) (λ e. refl)
      (λ e. sym (uncached-find_mac c ip e))

uncached-find_ip :
    (c : List CacheEntry) (mac : ℕ) → is_mac_cached c mac ≡ false → find_ip c mac ≡ none
unfolding is_mac_cached find_ip
uncached-find_ip [] mac h = refl
uncached-find_ip (e ∷ es) mac h = ground (arith, uncached-find_ip es mac)

pub get_ip-find_ip : (c : List CacheEntry) (mac : ℕ) → get_ip c mac ≡ find_ip c mac
unfolding get_ip
get_ip-find_ip c mac =
    elim-if (λ (o : Option ℕ). o ≡ find_ip c mac) (is_mac_cached c mac) (λ e. refl)
      (λ e. sym (uncached-find_ip c mac e))

find_mac-update_cache :
    (c : List CacheEntry) (mac ip : ℕ) → find_mac (update_cache c mac ip) ip ≡ some mac
unfolding find_mac update_cache
find_mac-update_cache [] mac ip = ground arith
find_mac-update_cache (e ∷ es) mac ip =
    let ih = find_mac-update_cache es mac ip in ground (arith, ih)

find_ip-update_cache :
    (c : List CacheEntry) (mac ip : ℕ) → find_ip (update_cache c mac ip) mac ≡ some ip
unfolding find_ip update_cache
find_ip-update_cache [] mac ip = ground arith
find_ip-update_cache (e ∷ es) mac ip = let ih = find_ip-update_cache es mac ip in ground (arith, ih)

find_mac-update_cache_other :
    (c : List CacheEntry) (mac ip other m : ℕ)
    → find_mac c other ≡ some m
    → other ≢ ip
    → m ≢ mac
    → find_mac (update_cache c mac ip) other ≡ some m
unfolding find_mac update_cache
find_mac-update_cache_other [] mac ip other m h n k = absurd (cc)
find_mac-update_cache_other (e ∷ es) mac ip other m h n k =
    let ih = find_mac-update_cache_other es mac ip other m in ground (arith, ih)

-- After an update, the cache answers the new hardware address for the IP address and the IP address
-- for the hardware address, and what it answered for another IP address with another hardware
-- address stays.
pub update_cache-get_mac :
    (c : List CacheEntry) (mac ip : ℕ)
    → (get_mac (update_cache c mac ip) ip ≡ some mac)
      × (get_ip (update_cache c mac ip) mac ≡ some ip)
      × ((other m : ℕ)
          → get_mac c other ≡ some m
          → other ≢ ip
          → m ≢ mac
          → get_mac (update_cache c mac ip) other ≡ some m)
update_cache-get_mac c mac ip = (
  get_mac-find_mac (update_cache c mac ip) ip ∙ find_mac-update_cache c mac ip,
  get_ip-find_ip (update_cache c mac ip) mac ∙ find_ip-update_cache c mac ip,
  λ other m h n k.
      get_mac-find_mac (update_cache c mac ip) other
      ∙ find_mac-update_cache_other c mac ip other m (sym (get_mac-find_mac c other) ∙ h) n k,
)

-- The loop with a timeout gives up in the first round in which the address is not in the cache
-- and at least one millisecond has passed, whatever the timeout is: the difference of the times
-- is taken the wrong way round and wraps. The times are fewer than `2^63` milliseconds apart, and
-- so is the timeout from 0.
pub timeout_at_once :
    (c : List CacheEntry) (ip ms start end : ℕ)
    → is_ip_cached c ip ≡ false
    → ms < 2 ^ 63
    → start < end
    → end < start + 2 ^ 63
    → force_round_timeout c ip ms start end ≡ some timed_out
unfolding force_round_timeout
timeout_at_once c ip ms start end absent small later close =
    if_false _ _ absent ∙ if_true _ _ (wraps ((start + 2 ^ 64 - end) % 2 ^ 64) (omega arith))
  where
    wraps : (d : ℕ) → ms < d → ltb ms d ≡ true
    wraps d h = ground arith
