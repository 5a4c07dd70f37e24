-- ===== src/Insecure/Canonical.antt =====
-- What CanonicalIP of internal/talos/insecure.go accepts and returns.
use talos_mcp_server.Common.{
  ◌≡◌, ap, ◌∙◌, ◌≢◌, ◌↔◌, inl, inr, false, some, [], ◌∷◌, arith, Option-cases, Text, length, ok,
}
use talos_mcp_server.Text.{text_eq_refl}
use talos_mcp_server.Net.{
  Ip, to4, is_unspecified, is_loopback, is_link_local_unicast, is_multicast, Net,
}
use talos_mcp_server.Insecure.{canonical_of, canonical_ip}

module _ (net : Net) where
  canonical_ip_lem :
      (s : Text) (ip : Ip) → net.parse_ip s ≡ some ip → canonical_ip net s ≡ canonical_of net ip
  unfolding canonical_ip
  canonical_ip_lem [] ip e = cc (net.parse_ip_nil)
  canonical_ip_lem (c ∷ s) ip e = rw (e, canonical_ip)

  canonical_of_print :
      (ip : Ip) (c : Text) → length ip ≡ 16 → canonical_of net ip ≡ ok c → c ≡ net.print_ip ip
  unfolding canonical_of
  canonical_of_print ip c l h = elim (Option-cases (to4 ip)) [
    | inl e ↦ ground arith
    | inr (q, e) ↦ ground (arith, net.print_to4 ip q l e)
  ]

  canonical_of_classes :
      (ip : Ip) (c : Text)
      → canonical_of net ip ≡ ok c
      → (is_unspecified ip ≡ false)
        × (is_loopback ip ≡ false)
        × (is_link_local_unicast ip ≡ false)
        × (is_multicast ip ≡ false)
        × (to4 ip ≢ some (255 ∷ 255 ∷ 255 ∷ 255 ∷ []))
  unfolding canonical_of
  canonical_of_classes ip c h = (
    ground arith,
    ground arith,
    ground arith,
    ground arith,
    λ e. ground (arith, text_eq_refl (255 ∷ 255 ∷ 255 ∷ 255 ∷ [])),
  )

  parsed :
      (s c : Text)
      → canonical_ip net s ≡ ok c
      → (ip : Ip) × (net.parse_ip s ≡ some ip) × (length ip ≡ 16) × (canonical_of net ip ≡ ok c)
  unfolding canonical_ip
  parsed [] c h = cc
  parsed (d ∷ s) c h = elim (Option-cases (net.parse_ip (d ∷ s))) [
    | inl e ↦ ground arith
    | inr (ip, e) ↦ (ip, e, net.parse_ip_size (d ∷ s) ip e, ground arith)
  ]

  -- An accepted endpoint is the text of an address outside every refused class (unspecified, loopback,
  -- link-local, multicast, IPv4 broadcast); the result is that address's print, and canonicalising
  -- the result gives it back.
  canonical_ip_sound :
      (s c : Text)
      → canonical_ip net s ≡ ok c
      → (ip : Ip) × (net.parse_ip s ≡ some ip)
        × (is_unspecified ip ≡ false)
        × (is_loopback ip ≡ false)
        × (is_link_local_unicast ip ≡ false)
        × (is_multicast ip ≡ false)
        × (to4 ip ≢ some (255 ∷ 255 ∷ 255 ∷ 255 ∷ []))
        × (c ≡ net.print_ip ip)
        × (canonical_ip net c ≡ ok c)
  canonical_ip_sound s c h =
      let (ip, e, l, k) = parsed s c h in
      let (u, lo, ll, m, b) = canonical_of_classes ip c k in
      let p = canonical_of_print ip c l k in
      let again : net.parse_ip c ≡ some ip = ap net.parse_ip p ∙ net.parse_print ip l in
      (ip, e, u, lo, ll, m, b, p, canonical_ip_lem c ip again ∙ k)

  -- Two accepted endpoints get the same canonical form exactly when they are texts of one address.
  canonical_ip_collapse :
      (s t c d : Text)
      → canonical_ip net s ≡ ok c
      → canonical_ip net t ≡ ok d
      → (c ≡ d) ↔ (net.parse_ip s ≡ net.parse_ip t)
  canonical_ip_collapse s t c d h k =
      let (ip, e, l, p) = parsed s c h in
      let (jp, f, m, q) = parsed t d k in
      let pc = canonical_of_print ip c l p in
      let pd = canonical_of_print jp d m q in
      (λ same. cc (net.parse_print ip l, net.parse_print jp m), λ same. cc)
