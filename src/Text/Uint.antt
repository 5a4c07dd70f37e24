-- ===== src/Text/Uint.antt =====
-- `strconv.ParseUint(s, 0, bits)`: the base is read from the prefix of the text.
use talos_mcp_server.Common.{
  ℕ, ◌+◌, ◌-◌, ◌*◌, Bool, true, false, not, ◌&&◌, ◌||◌, Option, none, some, [], ◌∷◌, ltb, leb, ◌==◌,
  if◌then◌else◌, Text, is_empty,
}
use talos_mcp_server.Text.{contains_byte}

-- The value of a digit in some base, up to 36.
digit : ℕ → Option ℕ
digit c =
    if leb b'0' c && leb c b'9'
    then some (c - b'0')
    else if leb b'a' c && leb c b'z'
    then some (c - b'a' + 10)
    else if leb b'A' c && leb c b'Z'
    then some (c - b'A' + 10)
    else none

-- `none` also for a number above the limit.
scan : ℕ → ℕ → Text → ℕ → Option ℕ
unfolding digit
scan limit base [] n = some n
scan limit base (c ∷ s) n = if c == b'_' then scan limit base s n else elim (digit c) [
  | none ↦ none
  | some d ↦
      if leb base d || ltb limit (n * base + d) then none else scan limit base s (n * base + d)
]

-- The base prefix and what follows.
prefix_base : Text → ℕ × Text
prefix_base (c ∷ d ∷ e ∷ s) =
    if not (c == b'0')
    then (10, c ∷ d ∷ e ∷ s)
    else if d == b'b' || d == b'B'
    then (2, e ∷ s)
    else if d == b'o' || d == b'O'
    then (8, e ∷ s)
    else if d == b'x' || d == b'X'
    then (16, e ∷ s)
    else (8, d ∷ e ∷ s)
prefix_base (c ∷ s) = if c == b'0' then (8, s) else (10, c ∷ s)
prefix_base [] = (10, [])

-- Underscores stand between digits, or between the prefix and a digit. (The rest is digits.)
spaced : Bool → Text → Bool
spaced after_digit [] = after_digit
spaced after_digit (c ∷ s) = if c == b'_' then after_digit && spaced false s else spaced true s

underscores_ok : Text → Bool
unfolding spaced
underscores_ok (c ∷ d ∷ s) =
    if c == b'0' && (d == b'b' || d == b'B' || d == b'o' || d == b'O' || d == b'x' || d == b'X')
    then spaced true s
    else spaced false (c ∷ d ∷ s)
underscores_ok s = spaced false s

unfoldable pub parse_uint : ℕ → Text → Option ℕ
unfolding scan prefix_base underscores_ok
parse_uint limit s =
    if is_empty s || (contains_byte s b'_' && not (underscores_ok s))
    then none
    else scan limit (prefix_base s).0 (prefix_base s).1 0
