-- ===== src/Blocklist/Pointer.antt =====
-- RFC 6902 pointers and the dotted paths that they become.
use talos_mcp_server.Common.{
  ℕ, ◌≡◌, refl, ap, ◌≢◌, List, [], ◌∷◌, map, arith, ◌==◌, if◌then◌else◌, Text, All,
}
use talos_mcp_server.Text.{trim_prefix, Lacks}
use talos_mcp_server.Text.Parts.{join, split-join, replace_all}
use talos_mcp_server.Blocklist.{unescape, normalise_json_pointer}

-- How RFC 6901 writes a key in a pointer: `~` becomes `~0` and `/` becomes `~1`.
unfoldable pub escape : Text → Text
escape [] = []
escape (c ∷ k) =
    let rest = escape k in
    if c == b'~' then b'~' ∷ b'0' ∷ rest else if c == b'/' then b'~' ∷ b'1' ∷ rest else c ∷ rest

-- The pointer to a key path.
unfoldable pub pointer : List Text → Text
unfolding escape
pointer keys = b'/' ∷ join (map escape keys) b'/'

replace_all-skip :
    (a b c x : ℕ) (s : Text) → x ≢ a → replace_all a b c (x ∷ s) ≡ x ∷ replace_all a b c s
unfolding replace_all
replace_all-skip a b c x [] h = refl
replace_all-skip a b c x (y ∷ s) h = ground arith

replace_all-hit : (a b c : ℕ) (s : Text) → replace_all a b c (a ∷ b ∷ s) ≡ c ∷ replace_all a b c s
unfolding replace_all
replace_all-hit a b c s = ground arith

replace_all-miss :
    (a b c y : ℕ) (s : Text) → y ≢ b → replace_all a b c (a ∷ y ∷ s) ≡ a ∷ replace_all a b c (y ∷ s)
unfolding replace_all
replace_all-miss a b c y s h = ground arith

-- After the first replacement only `~0` is left escaped.
half_escape : Text → Text
half_escape [] = []
half_escape (c ∷ k) = let rest = half_escape k in if c == b'~' then b'~' ∷ b'0' ∷ rest else c ∷ rest

first_pass : (k : Text) → replace_all b'~' b'1' b'/' (escape k) ≡ half_escape k
unfolding escape half_escape
first_pass [] = unfold replace_all in refl
first_pass (c ∷ k) = ground (
  arith,
  first_pass k,
  replace_all-miss b'~' b'1' b'/' b'0' (escape k),
  replace_all-skip b'~' b'1' b'/' b'0' (escape k),
  replace_all-hit b'~' b'1' b'/' (escape k),
  replace_all-skip b'~' b'1' b'/' c (escape k),
)

second_pass : (k : Text) → replace_all b'~' b'0' b'~' (half_escape k) ≡ k
unfolding half_escape
second_pass [] = unfold replace_all in refl
second_pass (c ∷ k) = ground (
  arith,
  second_pass k,
  replace_all-hit b'~' b'0' b'~' (half_escape k),
  replace_all-skip b'~' b'0' b'~' c (half_escape k),
)

unescape-escape : (k : Text) → unescape (escape k) ≡ k
unfolding unescape
unescape-escape k = rw (first_pass k) (second_pass k)

map-unescape-escape : (keys : List Text) → map unescape (map escape keys) ≡ keys
map-unescape-escape [] = refl
map-unescape-escape (k ∷ keys) = cc (unescape-escape k, map-unescape-escape keys)

escape-Lacks : (k : Text) → Lacks b'/' (escape k)
unfolding escape
escape-Lacks [] = tt
escape-Lacks (c ∷ k) = ground (arith, escape-Lacks k)

map-escape-Lacks : (keys : List Text) → All (Lacks b'/') (map escape keys)
map-escape-Lacks [] = tt
map-escape-Lacks (k ∷ keys) = (escape-Lacks k, map-escape-Lacks keys)

-- The pointer to any path of keys is normalised to the dotted path of the same keys, whatever
-- slashes and tildes they hold.
pub normalise_json_pointer-pointer :
    (k : Text) (keys : List Text)
    → normalise_json_pointer (pointer (k ∷ keys)) ≡ join (k ∷ keys) b'.'
unfolding normalise_json_pointer pointer trim_prefix
normalise_json_pointer-pointer k keys =
    rw (split-join (escape k) (map escape keys) b'/' (map-escape-Lacks (k ∷ keys)))
      (ap (λ ps. join ps b'.') (map-unescape-escape (k ∷ keys)))
