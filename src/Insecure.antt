-- ===== src/Insecure.antt =====
-- The maintenance-mode gates: CanonicalIP and ParseFingerprint of internal/talos/insecure.go, and
-- CheckInsecureAllowlist of internal/config/insecure.go.
pub mod Canonical
pub mod Fingerprint
pub mod Ceiling
pub mod Mapped
mod Tests
use talos_mcp_server.Common.{
  ℕ, zero, suc, ◌+◌, ◌-◌, ◌*◌, ◌/◌, ◌%◌, ◌^◌, ◌≤◌, ◌<◌, ◌≡◌, refl, sym, ap, ◌∙◌, ◌≢◌, ◌↔◌, ◌⊎◌, inl,
  inr, Bool, true, false, not, ◌&&◌, ◌||◌, Option, none, some, List, [], ◌∷◌, ◌++◌, map, append-nil,
  append_assoc, arith, ltb, leb, ◌==◌, if◌then◌else◌, Bool-cases, Option-cases, ◌>>=◌, is_ok,
  Result-cases, Text, codes, length, take, drop, length-append, is_empty, All, All-append, In,
  In-append_left, In-append_right, In-append_cases, Result, ok, err,
}
use talos_mcp_server.Text.{
  text_eq, text_eq_iff, text_eq_refl, has_prefix, after_prefix, trim_prefix, has_prefix-append,
  has_prefix_split, contains_byte, Lacks, contains_byte-Lacks, trim_left, trim_right, trim_space,
  to_lower, to_lower_idem,
}
use talos_mcp_server.Text.Parts.{split}
use talos_mcp_server.Net.{
  Ip, v4_in_v6_prefix, is_mapped, to4, cidr_mask, and_bytes, mask_ip, network, or_self, number_mask,
  same_masked, contains, byte_at, is_unspecified, is_loopback, is_link_local_unicast, is_multicast,
  Prefix, IpNet, Net,
}

pub data IpError : Type 0 where
  endpoint_empty not_bare_ip unspecified loopback link_local multicast broadcast : IpError

module _ (net : Net) where
  -- The tests on the parsed address, and its canonical print.
  pub canonical_of : Ip → Result IpError Text
  canonical_of ip =
      if is_unspecified ip
      then err unspecified
      else if is_loopback ip
      then err loopback
      else if is_link_local_unicast ip
      then err link_local
      else if is_multicast ip
      then err multicast
      else elim (to4 ip) [
        | some q ↦
            if text_eq q (255 ∷ 255 ∷ 255 ∷ 255 ∷ []) then err broadcast else ok (net.print_ip q)
        | none ↦ ok (net.print_ip ip)
      ]

  pub canonical_ip : Text → Result IpError Text
  unfolding canonical_of
  canonical_ip [] = err endpoint_empty
  canonical_ip (c ∷ s) = elim (net.parse_ip (c ∷ s)) [
    | none ↦ err not_bare_ip
    | some ip ↦ canonical_of ip
  ]

pub data FingerprintError : Type 0 where
  fingerprint_empty fingerprint_length fingerprint_not_hex : FingerprintError

is_separator : ℕ → Bool
is_separator c = c == b':' || c == 32 || c == 9 || c == 10 || c == 13

pub strip : Text → Text
unfolding is_separator
strip [] = []
strip (c ∷ s) = let rest = strip s in if is_separator c then rest else c ∷ rest

-- hex.DecodeString
pub hex_value : ℕ → Option ℕ
hex_value c =
    if leb b'0' c && leb c b'9'
    then some (c - b'0')
    else if leb b'a' c && leb c b'f'
    then some (c - b'a' + 10)
    else if leb b'A' c && leb c b'F'
    then some (c - b'A' + 10)
    else none

hex_byte : Option ℕ → Option ℕ → Option ℕ
hex_byte (some h) (some l) = some (h * 16 + l)
hex_byte _ _ = none

push_byte : Option ℕ → Option (List ℕ) → Option (List ℕ)
push_byte (some b) (some bs) = some (b ∷ bs)
push_byte _ _ = none

pub hex_decode : Text → Option (List ℕ)
unfolding hex_value hex_byte push_byte
hex_decode [] = some []
hex_decode (c ∷ []) = none
hex_decode (c ∷ d ∷ s) = push_byte (hex_byte (hex_value c) (hex_value d)) (hex_decode s)

pub parse_fingerprint : Text → Result FingerprintError (List ℕ)
unfolding strip
parse_fingerprint s =
    let stripped = strip s in
    if is_empty stripped
    then err fingerprint_empty
    else if not (length stripped == 64)
    then err fingerprint_length
    else elim (hex_decode stripped) [ none ↦ err fingerprint_not_hex | some bs ↦ ok bs ]

pub data CeilingError : Type 0 where
  allowlist_unset no_usable_entries : CeilingError
  not_ip_or_cidr bad_cidr : Text → CeilingError
  too_permissive : Text → ℕ → ℕ → CeilingError

abbrev pub hard_refuse_mask : ℕ → ℕ
hard_refuse_mask bits = if bits == 32 then 16 else 48

abbrev pub warn_mask : ℕ → ℕ
warn_mask bits = if bits == 32 then 24 else 64

-- `hasEntry` after the loop
pub has_entry : List Text → Bool
has_entry [] = false
has_entry (e ∷ es) = not (is_empty (trim_space e)) || has_entry es

module _ (net : Net) where
  inspect_cidr : Text → Result CeilingError (List Text)
  inspect_cidr entry = elim (net.parse_prefix entry) [
    | none ↦ err (bad_cidr entry)
    | some p ↦
        if ltb p.ones (hard_refuse_mask p.bits)
        then err (too_permissive entry p.ones (hard_refuse_mask p.bits))
        else if ltb p.ones (warn_mask p.bits)
        then ok (entry ∷ [])
        else ok []
  ]

  -- One round of the loop, for the trimmed entry: the entries that it reports as broad.
  pub inspect_entry : Text → Result CeilingError (List Text)
  unfolding inspect_cidr
  inspect_entry [] = ok []
  inspect_entry (c ∷ s) =
      if not (contains_byte (c ∷ s) b'/')
      then elim (net.parse_ip (c ∷ s)) [ none ↦ err (not_ip_or_cidr (c ∷ s)) | some ip ↦ ok [] ]
      else inspect_cidr (c ∷ s)

  pub inspect_entries : List Text → Result CeilingError (List Text)
  unfolding inspect_entry
  inspect_entries [] = ok []
  inspect_entries (e ∷ es) = do
    broad ← inspect_entry (trim_space e)
    rest ← inspect_entries es
    ok (broad ++ rest)

  unfoldable pub check_insecure_allowlist : Text → Result CeilingError (List Text)
  unfolding inspect_entries has_entry
  check_insecure_allowlist raw =
      let entries = split (trim_space raw) b',' in
      if is_empty (trim_space raw) then err allowlist_unset else do
        broad ← inspect_entries entries
        if has_entry entries then ok broad else err no_usable_entries
