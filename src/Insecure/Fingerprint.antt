-- ===== src/Insecure/Fingerprint.antt =====
-- What ParseFingerprint of internal/talos/insecure.go accepts and returns.
use talos_mcp_server.Common.{
  ℕ, suc, ◌+◌, ◌-◌, ◌*◌, ◌/◌, ◌%◌, ◌<◌, ◌≡◌, refl, inl, inr, Bool, false, Option, none, some, List,
  [], ◌∷◌, ◌++◌, arith, ltb, if◌then◌else◌, Option-cases, Text, length, All, ok,
}
use talos_mcp_server.Insecure.{
  is_separator, strip, hex_value, hex_byte, push_byte, hex_decode, parse_fingerprint,
}

hex_value_lt : (c v : ℕ) → hex_value c ≡ some v → v < 16
unfolding hex_value
hex_value_lt c v h = ground arith

hex_byte_lt : (c d b : ℕ) → hex_byte (hex_value c) (hex_value d) ≡ some b → b < 256
unfolding hex_byte
hex_byte_lt c d b h = elim (Option-cases (hex_value c)) [
  | inl e ↦ ground arith
  | inr (v, e) ↦ elim (Option-cases (hex_value d)) [
    | inl f ↦ ground arith
    | inr (w, f) ↦ ground (arith, hex_value_lt c v e, hex_value_lt d w f)
  ]
]

push_byte-some :
    (o : Option ℕ) (p : Option (List ℕ)) (bs : List ℕ)
    → push_byte o p ≡ some bs
    → (b : ℕ) × (r : List ℕ) × (bs ≡ b ∷ r) × (o ≡ some b) × (p ≡ some r)
unfolding push_byte
push_byte-some (some b) (some r) bs h = (b, r, ground arith, refl, refl)
push_byte-some (some b) none bs h = cc
push_byte-some none p bs h = cc

hex_decode_sound :
    (s : Text) (bs : List ℕ)
    → hex_decode s ≡ some bs
    → (length s ≡ 2 * length bs) × All (λ b. b < 256) bs
unfolding hex_decode
hex_decode_sound [] [] h = (omega arith, tt)
hex_decode_sound [] (b ∷ bs) h = cc
hex_decode_sound (c ∷ []) bs h = cc
hex_decode_sound (c ∷ d ∷ s) bs h =
    let (b, r, e, f, g) =
      push_byte-some (hex_byte (hex_value c) (hex_value d)) (hex_decode s) bs h in
    let (l, a) = hex_decode_sound s r g in
    let m : suc (suc (length s)) ≡ 2 * suc (length r) = omega arith in
    rw e (m, (hex_byte_lt c d b f, a))

-- An accepted fingerprint is 32 bytes, read from 64 hexadecimal digits.
parse_fingerprint_sound :
    (s : Text) (bs : List ℕ)
    → parse_fingerprint s ≡ ok bs
    → (length bs ≡ 32) × All (λ b. b < 256) bs × (hex_decode (strip s) ≡ some bs)
unfolding parse_fingerprint
parse_fingerprint_sound s bs h = ground (arith, hex_decode_sound (strip s) bs)

-- A hexadecimal digit, in upper or lower case.
hex_digit : Bool → ℕ → ℕ
hex_digit upper n =
    if ltb n 10 then b'0' + n else if upper then b'A' + (n - 10) else b'a' + (n - 10)

-- The bytes in hexadecimal, each behind a separator.
pub spell : Bool → Text → List ℕ → Text
spell upper sep [] = []
spell upper sep (b ∷ bs) =
    sep ++ hex_digit upper (b / 16) ∷ hex_digit upper (b % 16) ∷ spell upper sep bs

hex_value-digit : (upper : Bool) (n : ℕ) → n < 16 → hex_value (hex_digit upper n) ≡ some n
unfolding hex_value hex_digit
hex_value-digit upper n h = ground arith

is_separator-digit : (upper : Bool) (n : ℕ) → n < 16 → is_separator (hex_digit upper n) ≡ false
unfolding is_separator hex_digit
is_separator-digit upper n h = ground arith

-- The same without separators.
plain : Bool → List ℕ → Text
plain upper [] = []
plain upper (b ∷ bs) = hex_digit upper (b / 16) ∷ hex_digit upper (b % 16) ∷ plain upper bs

strip-append : (s t : Text) → strip (s ++ t) ≡ strip s ++ strip t
unfolding strip
strip-append [] t = refl
strip-append (c ∷ s) t = ground (arith, strip-append s t)

strip_digits :
    (upper : Bool) (b : ℕ) (s t : Text)
    → b < 256
    → strip s ≡ t
    → strip (hex_digit upper (b / 16) ∷ hex_digit upper (b % 16) ∷ s)
      ≡ hex_digit upper (b / 16) ∷ hex_digit upper (b % 16) ∷ t
unfolding strip
strip_digits upper b s t h e = ground (
  arith,
  is_separator-digit upper (b / 16) (omega arith),
  is_separator-digit upper (b % 16) (omega arith),
)

strip-spell :
    (upper : Bool) (sep : Text) (bs : List ℕ)
    → strip sep ≡ []
    → All (λ b. b < 256) bs
    → strip (spell upper sep bs) ≡ plain upper bs
unfolding spell plain
strip-spell upper sep [] e h = unfold strip in refl
strip-spell upper sep (b ∷ bs) e h =
    rw (strip-append sep, e)
      (strip_digits upper b (spell upper sep bs) (plain upper bs) h.0
        (strip-spell upper sep bs e h.1))

length-plain : (upper : Bool) (bs : List ℕ) → length (plain upper bs) ≡ 2 * length bs
unfolding plain
length-plain upper [] = omega arith
length-plain upper (b ∷ bs) = omega (arith, length-plain upper bs)

hex_decode-plain :
    (upper : Bool) (bs : List ℕ) → All (λ b. b < 256) bs → hex_decode (plain upper bs) ≡ some bs
unfolding plain hex_decode
hex_decode-plain upper [] h = refl
hex_decode-plain upper (b ∷ bs) h =
    rw
      (
        hex_value-digit upper (b / 16) (omega (arith, h.0)),
        hex_value-digit upper (b % 16) (omega arith),
        hex_decode-plain upper bs h.1,
      )
      (unfold hex_byte push_byte in ground arith)

-- 32 bytes are read back from their hexadecimal digits, of either case, with any text of colons
-- and white space in front of each byte.
pub parse_fingerprint-spell :
    (upper : Bool) (sep : Text) (bs : List ℕ)
    → strip sep ≡ []
    → length bs ≡ 32
    → All (λ b. b < 256) bs
    → parse_fingerprint (spell upper sep bs) ≡ ok bs
unfolding parse_fingerprint
parse_fingerprint-spell upper sep bs e l h =
    rw (strip-spell upper sep bs e h)
      (ground (arith, length-plain upper bs, hex_decode-plain upper bs h))
