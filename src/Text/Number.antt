-- ===== src/Text/Number.antt =====
-- Decimal numbers: `strconv.Atoi` on text without a minus sign, and what `%d` prints.
use talos_mcp_server.Text.{Lacks}
use talos_mcp_server.Common.{
  ℕ, zero, suc, ◌+◌, ◌-◌, ◌*◌, ◌/◌, ◌%◌, ◌^◌, ◌≤◌, ◌<◌, ◌≡◌, refl, ◌∙◌, ◌≢◌, ◌⊎◌, Bool, true, false,
  ◌&&◌, Option, none, some, [], ◌∷◌, arith, ltb, leb, ◌==◌, if◌then◌else◌, Text, codes, All,
}

-- math.MaxInt on a 64-bit platform
abbrev pub max_int : ℕ
max_int = 2 ^ 63 - 1

is_digit : ℕ → Bool
is_digit c = leb b'0' c && leb c b'9'

scan : Text → ℕ → Option ℕ
unfolding is_digit
scan [] n = some n
scan (c ∷ s) n = let rest = scan s (n * 10 + (c - b'0')) in if is_digit c then rest else none

in_range : Option ℕ → Option ℕ
in_range none = none
in_range (some n) = if leb n max_int then some n else none

unsigned : Text → Option ℕ
unfolding scan in_range
unsigned [] = none
unsigned (c ∷ s) = in_range (scan (c ∷ s) 0)

-- strconv.Atoi; `none` is its error. A plus sign is accepted, as Go does.
unfoldable pub atoi : Text → Option ℕ
unfolding unsigned
atoi [] = none
atoi (c ∷ s) = if c == b'+' then unsigned s else unsigned (c ∷ s)

emit : ℕ → ℕ → Text → Text
emit zero n out = out
emit (suc f) n out = elim (ltb n 10) [
  | true ↦ (b'0' + n) ∷ out
  | false ↦ emit f (n / 10) ((b'0' + n % 10) ∷ out)
]

-- %d
unfoldable pub decimal : ℕ → Text
unfolding emit
decimal n = emit (suc n) n []

abbrev pub IsDigit : ℕ → Type 0
IsDigit c = (b'0' ≤ c) × (c ≤ b'9')

emit-IsDigit : (f n : ℕ) (out : Text) → All IsDigit out → All IsDigit (emit f n out)
unfolding emit
emit-IsDigit zero n out h = h
emit-IsDigit (suc f) n out h = ground (arith, emit-IsDigit f (n / 10) ((b'0' + n % 10) ∷ out))

pub decimal-IsDigit : (n : ℕ) → All IsDigit (decimal n)
unfolding decimal
decimal-IsDigit n = emit-IsDigit (suc n) n [] tt

pub IsDigit-Lacks : (b : ℕ) (s : Text) → (b < b'0') ⊎ (b'9' < b) → All IsDigit s → Lacks b s
IsDigit-Lacks b [] h d = tt
IsDigit-Lacks b (c ∷ s) h d = (ground arith, IsDigit-Lacks b s h d.1)

scan-emit : (f n : ℕ) (out : Text) → n < f → scan (emit f n out) 0 ≡ scan out n
unfolding scan emit
scan-emit zero n out h = absurd (omega arith)
scan-emit (suc f) n out h = ground (arith, scan-emit f (n / 10) ((b'0' + n % 10) ∷ out))

emit-ne-nil : (f n : ℕ) (c : ℕ) (out : Text) → emit f n (c ∷ out) ≢ []
unfolding emit
emit-ne-nil zero n c out h = cc
emit-ne-nil (suc f) n c out h = ground (arith, emit-ne-nil f (n / 10) (b'0' + n % 10) (c ∷ out))

decimal-ne-nil : (n : ℕ) → decimal n ≢ []
unfolding decimal emit
decimal-ne-nil n h = ground (arith, emit-ne-nil n (n / 10) (b'0' + n % 10) [])

atoi-digits : (s : Text) → s ≢ [] → All IsDigit s → atoi s ≡ in_range (scan s 0)
unfolding atoi
atoi-digits [] h d = absurd (h refl)
atoi-digits (c ∷ s) h d = ground arith

-- A number in range is read back from its print.
pub atoi-decimal : (n : ℕ) → n ≤ max_int → atoi (decimal n) ≡ some n
unfolding decimal
atoi-decimal n h =
    atoi-digits (decimal n) (decimal-ne-nil n) (decimal-IsDigit n)
    ∙ rw (scan-emit (suc n) n [] (omega arith)) (unfold scan in_range in ground arith)

prints : decimal 1203 ≡ codes "1203"
unfolding decimal
prints = refl
