-- ===== src/Net/Ethernet.antt =====
-- kernel/src/net/ethernet_layer.cpp and kernel/include/net/packet.hpp: the header of a packet, the
-- layer that it is for, and the tags of a packet.
use thor_os.Prelude.{
  ℕ, zero, suc, ◌+◌, ◌-◌, ◌*◌, ◌/◌, ◌%◌, ◌^◌, ◌<◌, ◌≡◌, refl, ap, ◌∙◌, arith, bit_and, bit_or,
  Option, none, some, List, ◌==◌, ltb, if◌then◌else◌,
}
use thor_os.Word.Shift.{bit_or-zero_right, bit_or-shift, bit_or-split, bit_and-ones}
use thor_os.Word.Bits.{pow-pos}
use thor_os.Net.Address.{switch_endian_16, mac6_to_mac64, mac64_to_mac6}
use thor_os.Net.AddressLaws.{mac3_to_mac64-mac64_to_mac3}

pub data EtherType : Type 0 where
  ipv4 : EtherType
  ipv6 : EtherType
  arp : EtherType
  unknown : EtherType

-- The header, with the addresses as six bytes each.
pub record EtherHeader : Type 0 where
  pub target : List ℕ
  pub source : List ℕ
  pub ether_type : ℕ

pub decode_ether_type : EtherHeader → EtherType
decode_ether_type header =
    let code = switch_endian_16 header.ether_type in
    if code == 2048
    then ipv4
    else if code == 34525
    then ipv6
    else if code == 2054
    then arp
    else unknown

pub type_to_code : EtherType → ℕ
type_to_code ipv4 = 2048
type_to_code ipv6 = 34525
type_to_code arp = 2054
type_to_code unknown = 0

-- The header that `prepare_packet` writes, from the address of the interface, and the destination
-- and the type of the descriptor.
pub prepare_packet : ℕ → ℕ → EtherType → EtherHeader
prepare_packet source_mac destination type = record {
  target = mac64_to_mac6 destination;
  source = mac64_to_mac6 source_mac;
  ether_type = switch_endian_16 (type_to_code type);
}

-- What `decode` does with a packet.
pub data Decoded : Type 0 where
  to_ip : Decoded
  to_arp : Decoded
  dropped : Decoded

abbrev pub dispatch : EtherType → Decoded
dispatch ipv4 = to_ip
dispatch arp = to_arp
dispatch ipv6 = dropped
dispatch unknown = dropped

pub decode : EtherHeader → Decoded
decode header =
    if ltb (switch_endian_16 header.ether_type) 1536
    then dropped
    else dispatch (decode_ether_type header)

-- `packet::tag`, which sets a tag and which reads one
unfoldable pub set_tag : ℕ → ℕ → ℕ → ℕ
set_tag tags layer index = bit_or tags (index * 2 ^ (layer * 16) % 2 ^ 64)

unfoldable pub tag : ℕ → ℕ → Option ℕ
tag tags layer = if ltb layer 4 then some (bit_and (tags / 2 ^ (layer * 16)) (2 ^ 16 - 1)) else none

-- What a packet is prepared for is what it is decoded as: it is handed to the IP layer or the ARP
-- layer, or dropped for another type, and the addresses of its header are the source and the
-- destination. The addresses have 48 bits.
pub decode-prepare_packet :
    (source destination : ℕ) (type : EtherType)
    → source < 2 ^ 48
    → destination < 2 ^ 48
    → (decode (prepare_packet source destination type) ≡ dispatch type)
      × (mac6_to_mac64 (prepare_packet source destination type).source ≡ source)
      × (mac6_to_mac64 (prepare_packet source destination type).target ≡ destination)
unfolding decode prepare_packet decode_ether_type type_to_code switch_endian_16
decode-prepare_packet source destination ipv4 hs hd = (
  refl,
  (mac3_to_mac64-mac64_to_mac3 source hs).1,
  (mac3_to_mac64-mac64_to_mac3 destination hd).1,
)
decode-prepare_packet source destination ipv6 hs hd = (
  refl,
  (mac3_to_mac64-mac64_to_mac3 source hs).1,
  (mac3_to_mac64-mac64_to_mac3 destination hd).1,
)
decode-prepare_packet source destination arp hs hd = (
  refl,
  (mac3_to_mac64-mac64_to_mac3 source hs).1,
  (mac3_to_mac64-mac64_to_mac3 destination hd).1,
)
decode-prepare_packet source destination unknown hs hd = (
  refl,
  (mac3_to_mac64-mac64_to_mac3 source hs).1,
  (mac3_to_mac64-mac64_to_mac3 destination hd).1,
)

-- A field of 16 bits that is zero, with the bits above and below it.
or-field :
    (k hi lo index : ℕ)
    → lo < 2 ^ k
    → index < 2 ^ 16
    → bit_or (hi * 2 ^ 16 * 2 ^ k + lo) (index * 2 ^ k) ≡ (hi * 2 ^ 16 + index) * 2 ^ k + lo
or-field k hi lo index hl hi16 =
    ap (λ (n : ℕ). bit_or (hi * 2 ^ 16 * 2 ^ k + lo) n) (omega arith)
    ∙ bit_or-split k (hi * 2 ^ 16) index lo 0 hl (omega (arith, pow-pos k))
    ∙ ap (λ (n : ℕ). n * 2 ^ k + bit_or lo 0) (bit_or-shift 16 hi index hi16)
    ∙ ap (λ (n : ℕ). (hi * 2 ^ 16 + index) * 2 ^ k + n) (bit_or-zero_right lo)

-- One tag, with the others in the 64 bits.
module _ (k tags index : ℕ) (small : tags < 2 ^ 64) (fits : index < 2 ^ 16) where
  set_bits :
      tags ≡ tags / 2 ^ k / 2 ^ 16 * 2 ^ 16 * 2 ^ k + tags % 2 ^ k
      → tags % 2 ^ k < 2 ^ k
      → index * 2 ^ k < 2 ^ 64
      → bit_or tags (index * 2 ^ k % 2 ^ 64)
        ≡ (tags / 2 ^ k / 2 ^ 16 * 2 ^ 16 + index) * 2 ^ k + tags % 2 ^ k
  set_bits e below inside =
      ap (λ (n : ℕ). bit_or tags n) (omega (arith, inside))
      ∙ ap (λ (n : ℕ). bit_or n (index * 2 ^ k)) e
      ∙ or-field k (tags / 2 ^ k / 2 ^ 16) (tags % 2 ^ k) index below fits

-- The tag of a layer is read back as it was set, once: if the tag was 0 before. A layer is below 4
-- and a tag has 16 bits.
pub tag-set_tag :
    (tags layer index : ℕ)
    → tags < 2 ^ 64
    → index < 2 ^ 16
    → tag tags layer ≡ some 0
    → tag (set_tag tags layer index) layer ≡ some index
unfolding tag set_tag
tag-set_tag tags zero index small fits zero_before =
    let before : bit_and (tags / 1) (2 ^ 16 - 1) ≡ 0 = cc in
    let mask = bit_and-ones 16 (tags / 1) in
    let written =
      set_bits 0 tags index small fits (omega (arith, before, mask)) (omega arith) (omega arith) in
    let after : bit_and (bit_or tags (index * 1 % 2 ^ 64) / 1) (2 ^ 16 - 1) ≡ index =
      omega
        (arith, written, before, mask, bit_and-ones 16 (bit_or tags (index * 1 % 2 ^ 64) / 1)) in
    ap some after
tag-set_tag tags (suc zero) index small fits zero_before =
    let before : bit_and (tags / 2 ^ 16) (2 ^ 16 - 1) ≡ 0 = cc in
    let mask = bit_and-ones 16 (tags / 2 ^ 16) in
    let written =
      set_bits 16 tags index small fits (omega (arith, before, mask)) (omega arith) (omega arith) in
    let after : bit_and (bit_or tags (index * 2 ^ 16 % 2 ^ 64) / 2 ^ 16) (2 ^ 16 - 1) ≡ index =
      omega (
        arith,
        written,
        before,
        mask,
        bit_and-ones 16 (bit_or tags (index * 2 ^ 16 % 2 ^ 64) / 2 ^ 16),
      ) in
    ap some after
tag-set_tag tags (suc (suc zero)) index small fits zero_before =
    let before : bit_and (tags / 2 ^ 32) (2 ^ 16 - 1) ≡ 0 = cc in
    let mask = bit_and-ones 16 (tags / 2 ^ 32) in
    let written =
      set_bits 32 tags index small fits (omega (arith, before, mask)) (omega arith) (omega arith) in
    let after : bit_and (bit_or tags (index * 2 ^ 32 % 2 ^ 64) / 2 ^ 32) (2 ^ 16 - 1) ≡ index =
      omega (
        arith,
        written,
        before,
        mask,
        bit_and-ones 16 (bit_or tags (index * 2 ^ 32 % 2 ^ 64) / 2 ^ 32),
      ) in
    ap some after
tag-set_tag tags (suc (suc (suc zero))) index small fits zero_before =
    let before : bit_and (tags / 2 ^ 48) (2 ^ 16 - 1) ≡ 0 = cc in
    let mask = bit_and-ones 16 (tags / 2 ^ 48) in
    let written =
      set_bits 48 tags index small fits (omega (arith, before, mask)) (omega arith) (omega arith) in
    let after : bit_and (bit_or tags (index * 2 ^ 48 % 2 ^ 64) / 2 ^ 48) (2 ^ 16 - 1) ≡ index =
      omega (
        arith,
        written,
        before,
        mask,
        bit_and-ones 16 (bit_or tags (index * 2 ^ 48 % 2 ^ 64) / 2 ^ 48),
      ) in
    ap some after
tag-set_tag tags (suc (suc (suc (suc layer)))) index small fits zero_before =
    absurd (ground (arith, zero_before))
