-- ===== src/Net/Address.antt =====
-- kernel/include/kernel_utils.hpp, tlib/include/tlib/net_constants.hpp, and the conversions of
-- addresses in arp_layer.cpp, ethernet_layer.cpp and ip_layer.cpp of kernel/src/net.
-- A header field of two or four bytes is the number that the processor reads, lowest byte first.
-- An IP address is its `raw_address`.
use thor_os.Prelude.{
  ℕ, zero, suc, ◌+◌, ◌-◌, ◌*◌, ◌/◌, ◌%◌, ◌^◌, bit_and, bit_or, Bool, ◌&&◌, ◌==◌, List, [], ◌∷◌,
}

unfoldable pub switch_endian_16 : ℕ → ℕ
switch_endian_16 nb = bit_or (nb / 2 ^ 8) (nb * 2 ^ 8) % 2 ^ 16

unfoldable pub switch_endian_32 : ℕ → ℕ
switch_endian_32 nb =
    bit_or
      (bit_or
        (bit_or (bit_and (nb / 2 ^ 24) (2 ^ 8 - 1))
          (bit_and (nb * 2 ^ 8 % 2 ^ 32) ((2 ^ 8 - 1) * 2 ^ 16)))
        (bit_and (nb / 2 ^ 8) ((2 ^ 8 - 1) * 2 ^ 8)))
      (bit_and (nb * 2 ^ 24 % 2 ^ 32) ((2 ^ 8 - 1) * 2 ^ 24))

-- `address::operator()`
unfoldable pub byte_at : ℕ → ℕ → ℕ
byte_at ip index = bit_and (ip / 2 ^ ((3 - index) * 8)) (2 ^ 8 - 1)

unfoldable pub set_sub : ℕ → ℕ → ℕ → ℕ
set_sub ip index value = bit_or ip (value * 2 ^ ((3 - index) * 8) % 2 ^ 32)

unfoldable pub make_address : ℕ → ℕ → ℕ → ℕ → ℕ
make_address a b c d = set_sub (set_sub (set_sub (set_sub 0 0 a) 1 b) 2 c) 3 d

unfoldable pub ip32_to_ip : ℕ → ℕ
ip32_to_ip raw = switch_endian_32 raw

unfoldable pub ip_to_ip32 : ℕ → ℕ
ip_to_ip32 ip = switch_endian_32 ip

unfoldable pub same_network : ℕ → ℕ → Bool
same_network ip test =
    byte_at ip 0 == byte_at test 0
    && byte_at ip 1 == byte_at test 1
    && byte_at ip 2 == byte_at test 2

-- The loop of `mac3_to_mac64`, with `2 - i` one below the first argument.
unfoldable pub or_halves : ℕ → List ℕ → ℕ → ℕ
or_halves zero source_mac mac = mac
or_halves (suc left) [] mac = mac
or_halves (suc left) (s ∷ source_mac) mac =
    or_halves left source_mac (bit_or mac (switch_endian_16 s * 2 ^ (left * 16) % 2 ^ 64))

unfoldable pub mac3_to_mac64 : List ℕ → ℕ
mac3_to_mac64 source_mac = or_halves 3 source_mac 0

unfoldable pub mac64_to_mac3 : ℕ → List ℕ
mac64_to_mac3 source_mac = halves 3
  where
    halves : ℕ → List ℕ
    halves zero = []
    halves (suc left) = switch_endian_16 (source_mac / 2 ^ (left * 16) % 2 ^ 16) ∷ halves left

-- The loop of `ip2_to_ip`, from the index `i` on.
unfoldable pub set_halves : ℕ → List ℕ → ℕ → ℕ
set_halves i [] ip = ip
set_halves i (s ∷ source_ip) ip =
    let source = switch_endian_16 s in
    set_halves (i + 1) source_ip
      (set_sub (set_sub ip (2 * i) (source / 2 ^ 8 % 2 ^ 8)) (2 * i + 1) (source % 2 ^ 8))

unfoldable pub ip2_to_ip : List ℕ → ℕ
ip2_to_ip source_ip = set_halves 0 source_ip 0

unfoldable pub ip_to_ip2 : ℕ → List ℕ
ip_to_ip2 source_ip = half 0 ∷ half 1 ∷ []
  where
    half : ℕ → ℕ
    half i = (byte_at source_ip (2 * i + 1) * 2 ^ 8 + byte_at source_ip (2 * i)) % 2 ^ 16

-- The loops of the conversions to and from six bytes, with `5 - i` one below the first argument.
unfoldable pub or_bytes : ℕ → List ℕ → ℕ → ℕ
or_bytes zero source_mac mac = mac
or_bytes (suc left) [] mac = mac
or_bytes (suc left) (b ∷ source_mac) mac =
    or_bytes left source_mac (bit_or mac (b * 2 ^ (left * 8) % 2 ^ 64))

unfoldable pub mac6_to_mac64 : List ℕ → ℕ
mac6_to_mac64 source_mac = or_bytes 6 source_mac 0

unfoldable pub mac64_to_mac6 : ℕ → List ℕ
mac64_to_mac6 source_mac = bytes 6
  where
    bytes : ℕ → List ℕ
    bytes zero = []
    bytes (suc left) = (source_mac / 2 ^ (left * 8) % 2 ^ 8) ∷ bytes left
