-- ===== src/Net.antt =====
-- Go's `net`, as far as the server uses it. An address is its 16 bytes, as `net.ParseIP` returns it,
-- or the 4 bytes that `To4` cuts out; classes, masks and containment are defined on the bytes.
-- Reading and printing addresses as text is the interface `Net`, with the laws that the package
-- documents; `Net.Sample` is a notation that meets them.
pub mod Sample
use Prim.Native.Nat.{bit_and}
use talos_mcp_server.Common.{
  ℕ, zero, suc, ◌+◌, ◌-◌, ◌*◌, ◌/◌, ◌%◌, ◌^◌, ◌≤◌, ◌<◌, ◌≡◌, refl, sym, ap, ◌∙◌, ◌≢◌, ◌↔◌, ◌⊎◌, inl,
  inr, Bool, true, false, not, ◌&&◌, ◌||◌, Option, none, some, List, [], ◌∷◌, ◌++◌, map, append-nil,
  append_assoc, arith, ltb, leb, ◌==◌, if◌then◌else◌, Bool-cases, Option-cases, ◌>>=◌, is_ok,
  Result-cases, Text, codes, length, take, drop, length-append, is_empty, All, All-append, In,
  In-append_left, In-append_right, In-append_cases, Result, ok, err,
}
use talos_mcp_server.Text.{
  text_eq, text_eq_iff, text_eq_refl, has_prefix, after_prefix, trim_prefix, has_prefix-append,
  has_prefix_split, contains_byte, Lacks, contains_byte-Lacks, trim_left, trim_right, trim_space,
  to_lower, to_lower_idem,
}

abbrev pub Ip : Type 0
Ip = List ℕ

-- What `net.ParseCIDR` reads: an address, 32 or 128 bits by its notation, and the prefix length.
pub record Prefix : Type 0 where
  pub addr : Ip
  pub bits : ℕ
  pub ones : ℕ

-- net.IPNet
pub record IpNet : Type 0 where
  pub ip : Ip
  pub mask : List ℕ

abbrev pub v4_in_v6_prefix : List ℕ
v4_in_v6_prefix = 0 ∷ 0 ∷ 0 ∷ 0 ∷ 0 ∷ 0 ∷ 0 ∷ 0 ∷ 0 ∷ 0 ∷ 255 ∷ 255 ∷ []

abbrev pub is_mapped : Ip → Bool
is_mapped ip = length ip == 16 && text_eq (take 12 ip) v4_in_v6_prefix

-- IP.To4
unfoldable pub to4 : Ip → Option Ip
to4 ip = if length ip == 4 then some ip else if is_mapped ip then some (drop 12 ip) else none

-- net.CIDRMask, for that many bytes
unfoldable pub cidr_mask : ℕ → ℕ → List ℕ
cidr_mask zero ones = []
cidr_mask (suc n) ones = (if leb 8 ones then 255 else 256 - 2 ^ (8 - ones)) ∷ cidr_mask n (ones - 8)

unfoldable pub and_bytes : List ℕ → List ℕ → List ℕ
and_bytes (a ∷ as') (m ∷ ms) = bit_and a m ∷ and_bytes as' ms
and_bytes _ _ = []

-- IP.Mask, where the address has 16 bytes
unfoldable pub mask_ip : Ip → List ℕ → Ip
unfolding and_bytes
mask_ip ip mask =
    if length mask == 4 && is_mapped ip then and_bytes (drop 12 ip) mask else and_bytes ip mask

-- The network that `net.ParseCIDR` returns.
unfoldable pub network : Prefix → IpNet
unfolding cidr_mask mask_ip
network p =
    let mask = cidr_mask (p.bits / 8) p.ones in record { ip = mask_ip p.addr mask; mask = mask }

abbrev pub or_self : Option Ip → Ip → Ip
or_self none ip = ip
or_self (some q) ip = q

-- The mask that goes with a network number of that length, `networkNumberAndMask`; `[]` is its nil.
unfoldable pub number_mask : ℕ → List ℕ → List ℕ
number_mask n mask =
    if length mask == 16 && n == 4 then drop 12 mask else if length mask == n then mask else []

unfoldable pub same_masked : List ℕ → List ℕ → List ℕ → Bool
same_masked [] [] [] = true
same_masked (a ∷ as') (x ∷ xs) (m ∷ ms) = bit_and a m == bit_and x m && same_masked as' xs ms
same_masked _ _ _ = false

-- IPNet.Contains
unfoldable pub contains : IpNet → Ip → Bool
unfolding to4 number_mask same_masked
contains net ip =
    let number = or_self (to4 net.ip) net.ip in
    same_masked number (or_self (to4 ip) ip) (number_mask (length number) net.mask)

pub byte_at : List ℕ → ℕ → ℕ
byte_at [] i = 0
byte_at (b ∷ bs) zero = b
byte_at (b ∷ bs) (suc i) = byte_at bs i

abbrev zeros : ℕ → List ℕ
zeros zero = []
zeros (suc n) = 0 ∷ zeros n

-- IP.IsUnspecified: 0.0.0.0 or ::
unfoldable pub is_unspecified : Ip → Bool
unfolding to4
is_unspecified ip = elim (to4 ip) [ some q ↦ text_eq q (zeros 4) | none ↦ text_eq ip (zeros 16) ]

-- IP.IsLoopback: 127.0.0.0/8 or ::1
unfoldable pub is_loopback : Ip → Bool
unfolding to4 byte_at
is_loopback ip = elim (to4 ip) [
  | some q ↦ byte_at q 0 == 127
  | none ↦ text_eq ip (zeros 15 ++ 1 ∷ [])
]

-- IP.IsLinkLocalUnicast: 169.254.0.0/16 or fe80::/10
unfoldable pub is_link_local_unicast : Ip → Bool
unfolding to4 byte_at
is_link_local_unicast ip = elim (to4 ip) [
  | some q ↦ byte_at q 0 == 169 && byte_at q 1 == 254
  | none ↦ length ip == 16 && byte_at ip 0 == 0xfe && bit_and (byte_at ip 1) 0xc0 == 0x80
]

-- IP.IsMulticast: 224.0.0.0/4 or ff00::/8
unfoldable pub is_multicast : Ip → Bool
unfolding to4 byte_at
is_multicast ip = elim (to4 ip) [
  | some q ↦ bit_and (byte_at q 0) 0xf0 == 0xe0
  | none ↦ length ip == 16 && byte_at ip 0 == 0xff
]

-- The notation of addresses: what the server relies on of ParseIP, IP.String and ParseCIDR.
pub record Net : Type 0 where
  pub parse_ip : Text → Option Ip
  pub print_ip : Ip → Text
  pub parse_prefix : Text → Option Prefix
  pub parse_ip_size : (s : Text) (ip : Ip) → parse_ip s ≡ some ip → length ip ≡ 16
  pub parse_print : (ip : Ip) → length ip ≡ 16 → parse_ip (print_ip ip) ≡ some ip
  -- an IPv4-mapped address is printed as a dotted quad
  pub print_to4 : (ip q : Ip) → length ip ≡ 16 → to4 ip ≡ some q → print_ip q ≡ print_ip ip
  pub print_lower : (ip : Ip) → to_lower (print_ip ip) ≡ print_ip ip
  pub parse_ip_nil : parse_ip [] ≡ none

slash16 : Prefix
slash16 = record { addr = v4_in_v6_prefix ++ 10 ∷ 1 ∷ 2 ∷ 3 ∷ []; bits = 32; ones = 12 }

in_slash16 :
    (contains (network slash16) (v4_in_v6_prefix ++ 10 ∷ 15 ∷ 9 ∷ 9 ∷ []) ≡ true)
    × (contains (network slash16) (v4_in_v6_prefix ++ 10 ∷ 16 ∷ 0 ∷ 0 ∷ []) ≡ false)
unfolding contains network slash16 text_eq
in_slash16 = (refl, refl)
