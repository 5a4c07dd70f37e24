-- ===== src/MetaKey/Parsing.antt =====
-- What the readers of META keys accept.
use talos_mcp_server.Common.{
  ℕ, ◌<◌, ◌≡◌, refl, sym, ap, ◌∙◌, ◌↔◌, ◌⊎◌, inl, inr, true, false, ◌||◌, Option, none, some, List,
  [], ◌∷◌, arith, ◌==◌, Bool-cases, Result-cases, Text, is_empty, In, Result, ok,
}
use talos_mcp_server.Text.{trim_space}
use talos_mcp_server.Text.Parts.{split}
use talos_mcp_server.Text.Uint.{parse_uint}
use talos_mcp_server.MetaKey.{
  KeyError, ambiguous, in_byte, parse_entry, parse_meta_key, has_number, add_number, collect_keys,
  parse_meta_privileged_keys,
}

in_byte_bound : (o : Option ℕ) (v : ℕ) → in_byte o ≡ ok v → (o ≡ some v) × (v < 256)
unfolding in_byte
in_byte_bound none v h = cc
in_byte_bound (some w) v h = ground arith

-- An accepted key is a number that Go reads from the text, fits a byte, and is not written with
-- a leading zero that would silently make it octal.
parse_meta_key_sound :
    (s : Text) (v : ℕ)
    → parse_meta_key s ≡ ok v
    → (ambiguous s ≡ false) × (parse_uint 511 s ≡ some v) × (v < 256)
unfolding parse_meta_key parse_entry
parse_meta_key_sound s v h = ground (arith, in_byte_bound (parse_uint 511 s) v)

-- An entry that is not blank is the key.
abbrev pub Names : Text → ℕ → Type 0
Names e v = (is_empty (trim_space e) ≡ false) × (parse_entry (trim_space e) ≡ ok v)

abbrev pub SomeNames : List Text → ℕ → Type 0
SomeNames es v = (e : Text) × In e es × Names e v

has_number-add_number :
    (v w : ℕ) (out : List ℕ) → has_number v (add_number w out) ≡ (v == w || has_number v out)
unfolding has_number
has_number-add_number v w out = ground arith

SomeNames-blank :
    (e : Text) (es : List Text) (v : ℕ)
    → is_empty (trim_space e) ≡ true
    → SomeNames (e ∷ es) v
    → SomeNames es v
SomeNames-blank e es v b (f, inl q, (n, p)) =
    absurd (cc (b, ap (λ t. is_empty (trim_space t)) q, n))
SomeNames-blank e es v b (f, inr i, (n, p)) = (f, i, (n, p))

SomeNames-cons :
    (e : Text) (es : List Text) (v w : ℕ)
    → parse_entry (trim_space e) ≡ ok w
    → SomeNames (e ∷ es) v
    → (v ≡ w) ⊎ SomeNames es v
SomeNames-cons e es v w r (f, inl q, (n, p)) =
    inl (same (sym p ∙ ap (λ t. parse_entry (trim_space t)) q ∙ r))
  where
    same : {a b : ℕ} → Path (Result KeyError ℕ) (ok a) (ok b) → a ≡ b
    same h = ground arith
SomeNames-cons e es v w r (f, inr i, (n, p)) = inr (f, i, (n, p))

collect_keys_exact :
    (es : List Text) (out keys : List ℕ) (v : ℕ)
    → collect_keys es out ≡ ok keys
    → (has_number v keys ≡ true) ↔ ((has_number v out ≡ true) ⊎ SomeNames es v)
unfolding collect_keys
collect_keys_exact [] out keys v h = (λ p. inl (ground arith), back)
  where
    back : (has_number v out ≡ true) ⊎ SomeNames [] v → has_number v keys ≡ true
    back (inl p) = ground arith
    back (inr (e, i, p)) = absurd i
collect_keys_exact (e ∷ es) out keys v h = elim (Bool-cases (is_empty (trim_space e))) [
  | inl b ↦
      let (f, g) = collect_keys_exact es out keys v (ground arith) in
      (
        λ p. elim (f p) [ inl q ↦ inl q | inr (t, i, n) ↦ inr (t, inr i, n) ],
        λ p. g (elim p [ inl q ↦ inl q | inr s ↦ inr (SomeNames-blank e es v b s) ]),
      )
  | inr b ↦ elim (Result-cases (parse_entry (trim_space e))) [
    | inr (x, p) ↦ absurd (ground arith)
    | inl (w, p) ↦
        let (f, g) = collect_keys_exact es (add_number w out) keys v (ground arith) in
        let grown = has_number-add_number v w out in
        (
          λ k. elim (f k) [
            | inl q ↦ elim (Bool-cases (v == w)) [
              | inl s ↦ inr (e, inl refl, (b, rw (← named s) p))
              | inr s ↦ inl (ground arith)
            ]
            | inr (t, i, n) ↦ inr (t, inr i, n)
          ],
          λ k. g (elim k [
            | inl q ↦ inl (ground arith)
            | inr s ↦ elim (SomeNames-cons e es v w p s) [
              | inl q ↦ inl (ground arith)
              | inr r ↦ inr r
            ]
          ]),
        )
  ]
]
  where
    named : {w : ℕ} → (v == w) ≡ true → w ≡ v
    named h = ground arith

-- The privileged keys that are read from a text are exactly the keys that its comma-separated
-- entries, trimmed and not blank, name.
parse_meta_privileged_keys_exact :
    (raw : Text) (keys : List ℕ) (v : ℕ)
    → parse_meta_privileged_keys raw ≡ ok keys
    → is_empty (trim_space raw) ≡ false
    → (has_number v keys ≡ true) ↔ SomeNames (split (trim_space raw) b',') v
unfolding parse_meta_privileged_keys has_number
parse_meta_privileged_keys_exact raw keys v h b =
    let (f, g) = collect_keys_exact (split (trim_space raw) b',') [] keys v (ground arith) in
    (λ k. only (f k), λ k. g (inr k))
  where
    only :
        (false ≡ true) ⊎ SomeNames (split (trim_space raw) b',') v
        → SomeNames (split (trim_space raw) b',') v
    only (inl e) = absurd (cc e)
    only (inr s) = s
