-- ===== src/Net/Sample.antt =====
-- A notation for addresses that meets the laws of `Net`: every byte is printed as one code above 255,
-- and a network is written as a slash, the codes of its notation and prefix length, and its address.
use talos_mcp_server.Common.{
  ℕ, zero, suc, ◌+◌, ◌-◌, ◌≡◌, refl, ap, Bool, true, ◌&&◌, Option, none, some, List, [], ◌∷◌, ◌++◌,
  arith, leb, ◌==◌, if◌then◌else◌, Text, length, take, drop,
}
use talos_mcp_server.Text.{text_eq_iff, to_lower}
use talos_mcp_server.Net.{Ip, v4_in_v6_prefix, to4, Prefix, Net}

unfoldable pub shift_up : List ℕ → Text
shift_up [] = []
shift_up (b ∷ bs) = (b + 256) ∷ shift_up bs

unfoldable pub shift_down : Text → List ℕ
shift_down [] = []
shift_down (c ∷ s) = (c - 256) ∷ shift_down s

unfoldable pub all_high : Text → Bool
all_high [] = true
all_high (c ∷ s) = leb 256 c && all_high s

unfoldable pub read : Text → Option Ip
unfolding shift_down all_high
read s = if length s == 16 && all_high s then some (shift_down s) else none

unfoldable pub write : Ip → Text
unfolding shift_up
write ip = if length ip == 4 then shift_up (v4_in_v6_prefix ++ ip) else shift_up ip

unfoldable pub read_prefix : Text → Option Prefix
unfolding read
read_prefix (slash ∷ b ∷ n ∷ s) = elim (read s) [
  | some ip ↦
      if slash == b'/' then some (record { addr = ip; bits = b - 256; ones = n - 256 }) else none
  | none ↦ none
]
read_prefix _ = none

length-shift_down : (s : Text) → length (shift_down s) ≡ length s
unfolding shift_down
length-shift_down [] = refl
length-shift_down (c ∷ s) = ap suc (length-shift_down s)

length-shift_up : (s : Text) → length (shift_up s) ≡ length s
unfolding shift_up
length-shift_up [] = refl
length-shift_up (c ∷ s) = ap suc (length-shift_up s)

all_high-shift_up : (s : Text) → all_high (shift_up s) ≡ true
unfolding shift_up all_high
all_high-shift_up [] = refl
all_high-shift_up (c ∷ s) = ground (arith, all_high-shift_up s)

shift_down-up : (s : Text) → shift_down (shift_up s) ≡ s
unfolding shift_up shift_down
shift_down-up [] = refl
shift_down-up (c ∷ s) = ground (arith, shift_down-up s)

pub read_size : (s : Text) (ip : Ip) → read s ≡ some ip → length ip ≡ 16
unfolding read
read_size s ip h = ground (arith, length-shift_down s)

pub read-write : (ip : Ip) → length ip ≡ 16 → read (write ip) ≡ some ip
unfolding read write
read-write ip h = ground (arith, length-shift_up ip, all_high-shift_up ip, shift_down-up ip)

take-append-drop : (n : ℕ) (xs : List ℕ) → take n xs ++ drop n xs ≡ xs
take-append-drop zero xs = refl
take-append-drop (suc n) [] = refl
take-append-drop (suc n) (x ∷ xs) = ap (λ r. x ∷ r) (take-append-drop n xs)

length-drop : (n : ℕ) (xs : List ℕ) → length (drop n xs) ≡ length xs - n
length-drop zero xs = omega arith
length-drop (suc n) [] = omega arith
length-drop (suc n) (x ∷ xs) = omega (arith, length-drop n xs)

pub write-to4 : (ip q : Ip) → length ip ≡ 16 → to4 ip ≡ some q → write q ≡ write ip
unfolding write to4
write-to4 ip q h e =
    ground
      (arith, text_eq_iff (take 12 ip) v4_in_v6_prefix, take-append-drop 12 ip, length-drop 12 ip)

lower-shift_up : (s : Text) → to_lower (shift_up s) ≡ shift_up s
unfolding shift_up to_lower
lower-shift_up [] = refl
lower-shift_up (c ∷ s) = ground (arith, lower-shift_up s)

pub write_lower : (ip : Ip) → to_lower (write ip) ≡ write ip
unfolding write
write_lower ip = ground (arith, lower-shift_up ip, lower-shift_up (v4_in_v6_prefix ++ ip))

pub read_nil : read [] ≡ none
unfolding read
read_nil = refl

length-to_lower : (s : Text) → length (to_lower s) ≡ length s
unfolding to_lower
length-to_lower [] = refl
length-to_lower (c ∷ s) = ap suc (length-to_lower s)

all_high-to_lower : (s : Text) → all_high (to_lower s) ≡ all_high s
unfolding all_high to_lower
all_high-to_lower [] = refl
all_high-to_lower (c ∷ s) = ground (arith, all_high-to_lower s)

pub read_lower : (s : Text) → read s ≡ none → read (to_lower s) ≡ none
unfolding read
read_lower s h = ground (arith, length-to_lower s, all_high-to_lower s)

abbrev pub sample_net : Net
sample_net = record {
  parse_ip = read;
  print_ip = write;
  parse_prefix = read_prefix;
  parse_ip_size = read_size;
  parse_print = read-write;
  print_to4 = write-to4;
  print_lower = write_lower;
  parse_ip_nil = read_nil;
}
