-- ===== src/Insecure/Mapped.antt =====
-- IPv4-mapped ranges in IPv6 notation before the ceiling of CheckInsecureAllowlist.
use Prim.Native.Nat.{bit_and}
use talos_mcp_server.Common.{
  ℕ, zero, suc, ◌≤◌, ◌<◌, ◌≡◌, refl, ◌∙◌, Bool, true, false, some, [], ◌∷◌, ◌++◌, arith, ◌==◌,
  if◌then◌else◌, is_ok, Text, All, ok,
}
use talos_mcp_server.Text.{text_eq, contains_byte, Lacks, trim_space}
use talos_mcp_server.Text.Parts.{split-Lacks}
use talos_mcp_server.Net.{v4_in_v6_prefix, network, contains, Prefix, Net}
use talos_mcp_server.Nodes.{NodeAllowlist, parse_node_allowlist, check_node}
use talos_mcp_server.Insecure.Ceiling.{parse-check_insecure_allowlist}
use talos_mcp_server.Nodes.Matching.{matches_some_range, check_node_exact}
use talos_mcp_server.Insecure.{check_insecure_allowlist}

-- Whether every number under the bound loses all its bits under a zero mask.
wiped : ℕ → Bool
wiped zero = true
wiped (suc bound) = if bit_and bound 0 == 0 then wiped bound else false

wiped-bit_and : (x bound : ℕ) → x < bound → wiped bound ≡ true → bit_and x 0 ≡ 0
unfolding wiped
wiped-bit_and x zero less e = absurd (omega arith)
wiped-bit_and x (suc bound) less e = ground (arith, wiped-bit_and x bound)

and_zero : (byte : ℕ) → byte < 256 → bit_and byte 0 ≡ 0
unfolding wiped
and_zero byte small = wiped-bit_and byte 256 small refl

-- `::ffff:a.b.c.d/96`
abbrev pub mapped_range : ℕ → ℕ → ℕ → ℕ → Prefix
mapped_range a b c d = record {
  addr = v4_in_v6_prefix ++ a ∷ b ∷ c ∷ d ∷ [];
  bits = 128;
  ones = 96;
}

contains-mapped_range :
    (a b c d x y z w : ℕ)
    → All (λ e. e < 256) (a ∷ b ∷ c ∷ d ∷ x ∷ y ∷ z ∷ w ∷ [])
    → contains (network (mapped_range a b c d)) (v4_in_v6_prefix ++ x ∷ y ∷ z ∷ w ∷ []) ≡ true
unfolding contains network text_eq
contains-mapped_range a b c d x y z w (ha, (hb, (hc, (hd, (hx, (hy, (hz, (hw, _)))))))) = rw (
  and_zero a ha,
  and_zero b hb,
  and_zero c hc,
  and_zero d hd,
  and_zero x hx,
  and_zero y hy,
  and_zero z hz,
  and_zero w hw,
)

module _ (net : Net) where
  accepts :
      (entry : Text) (p : Prefix)
      → trim_space entry ≡ entry
      → Lacks b',' entry
      → contains_byte entry b'/' ≡ true
      → net.parse_prefix entry ≡ some p
      → 64 ≤ p.ones
      → check_insecure_allowlist net entry ≡ ok []
  unfolding check_insecure_allowlist
  accepts [] p t l s e h = unfold contains_byte in cc
  accepts (c ∷ r) p t l s e h = rw (t, split-Lacks (c ∷ r) b',' l) (rw t (ground arith))

  -- The ceiling accepts `::ffff:a.b.c.d/96` as the only entry and reports nothing broad, and the
  -- allowlist read from the same text permits any node that is an IPv4 address.
  pub ceiling_misses_mapped_range :
      (entry : Text) (a b c d : ℕ) (node : Text) (x y z w : ℕ)
      → trim_space entry ≡ entry
      → Lacks b',' entry
      → contains_byte entry b'/' ≡ true
      → All (λ e. e < 256) (a ∷ b ∷ c ∷ d ∷ x ∷ y ∷ z ∷ w ∷ [])
      → net.parse_prefix entry ≡ some (mapped_range a b c d)
      → net.parse_ip node ≡ some (v4_in_v6_prefix ++ x ∷ y ∷ z ∷ w ∷ [])
      → (check_insecure_allowlist net entry ≡ ok [])
        × (allow : NodeAllowlist) × (parse_node_allowlist net entry ≡ ok (some allow))
        × (is_ok (check_node net (some allow) node) ≡ true)
  ceiling_misses_mapped_range entry a b c d node x y z w t l s h e f =
      let checked = accepts entry (mapped_range a b c d) t l s e (omega arith) in
      let (allow, read, _) = parse-check_insecure_allowlist net entry [] checked in
      let inside = contains-mapped_range a b c d x y z w h in
      (
        checked,
        allow,
        read,
        check_node_exact net entry allow node read
            ∙ rw (t, split-Lacks entry b',' l)
                (matches_some_range net entry node (mapped_range a b c d) _ s t e f inside),
      )
