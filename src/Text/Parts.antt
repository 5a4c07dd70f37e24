-- ===== src/Text/Parts.antt =====
-- strings.Split, strings.Join and strings.ReplaceAll, with separators of one byte.
use talos_mcp_server.Common.{
  ℕ, ◌≡◌, refl, ap, ◌∙◌, ◌≢◌, inl, inr, ◌&&◌, Option, none, some, List, [], ◌∷◌, ◌++◌, arith, ◌==◌,
  if◌then◌else◌, Bool-cases, if_cases, Text, All,
}
use talos_mcp_server.Text.{Lacks}

push_head : ℕ → List Text → List Text
push_head c [] = (c ∷ []) ∷ []
push_head c (p ∷ ps) = (c ∷ p) ∷ ps

unfoldable pub split : Text → ℕ → List Text
unfolding push_head
split [] sep = [] ∷ []
split (c ∷ s) sep = let rest = split s sep in if c == sep then [] ∷ rest else push_head c rest

unfoldable pub join : List Text → ℕ → Text
join [] sep = []
join (p ∷ []) sep = p
join (p ∷ q ∷ ps) sep = p ++ sep ∷ join (q ∷ ps) sep

split_lem : (s : Text) (sep : ℕ) → (p : Text) × (ps : List Text) × (split s sep ≡ p ∷ ps)
unfolding split
split_lem [] sep = ([], [], refl)
split_lem (c ∷ s) sep = elim (Bool-cases (c == sep)) [
  | inl e ↦ ([], split s sep, rw e)
  | inr e ↦ let (p, ps, r) = split_lem s sep in (c ∷ p, ps, rw (e, r))
]

join-push_head :
    (c : ℕ) (p : Text) (ps : List Text) (sep : ℕ) → join ((c ∷ p) ∷ ps) sep ≡ c ∷ join (p ∷ ps) sep
unfolding join
join-push_head c p [] sep = refl
join-push_head c p (q ∷ ps) sep = refl

join-nil-head :
    (p : Text) (ps : List Text) (sep : ℕ) → join ([] ∷ p ∷ ps) sep ≡ sep ∷ join (p ∷ ps) sep
unfolding join
join-nil-head p ps sep = refl

join-split : (s : Text) (sep : ℕ) → join (split s sep) sep ≡ s
unfolding split
join-split [] sep = unfold join in refl
join-split (c ∷ s) sep =
    let (p, ps, r) = split_lem s sep in
    let ih : join (p ∷ ps) sep ≡ s = rw (← r) (join-split s sep) in
    elim (Bool-cases (c == sep)) [
      | inl e ↦ let e' : c ≡ sep = ground arith in rw (e, r) (join-nil-head p ps sep ∙ cc (ih, e'))
      | inr e ↦ rw (e, r) (join-push_head c p ps sep ∙ ap (λ t. c ∷ t) ih)
    ]

pub split-Lacks : (p : Text) (sep : ℕ) → Lacks sep p → split p sep ≡ p ∷ []
unfolding split
split-Lacks [] sep h = refl
split-Lacks (c ∷ p) sep h = ground (arith, split-Lacks p sep)

push_head-Lacks :
    (c : ℕ) (ps : List Text) (sep : ℕ)
    → c ≢ sep
    → All (Lacks sep) ps
    → All (Lacks sep) (push_head c ps)
unfolding push_head
push_head-Lacks c [] sep n a = ((n, tt), tt)
push_head-Lacks c (p ∷ ps) sep n a = ((n, a.0), a.1)

pub Lacks-split : (s : Text) (sep : ℕ) → All (Lacks sep) (split s sep)
unfolding split
Lacks-split [] sep = (tt, tt)
Lacks-split (c ∷ s) sep =
    if_cases (All (Lacks sep)) (c == sep) _ _ (λ _. (tt, Lacks-split s sep))
      (λ f. push_head-Lacks c (split s sep) sep (ground arith) (Lacks-split s sep))

-- A part without the separator is cut off whole.
pub split-append :
    (p rest : Text) (sep : ℕ) → Lacks sep p → split (p ++ sep ∷ rest) sep ≡ p ∷ split rest sep
unfolding split
split-append [] rest sep h = ground arith
split-append (c ∷ p) rest sep h = ground (arith, split-append p rest sep)

pub split-join :
    (p : Text) (ps : List Text) (sep : ℕ)
    → All (Lacks sep) (p ∷ ps)
    → split (join (p ∷ ps) sep) sep ≡ p ∷ ps
unfolding join
split-join p [] sep h = split-Lacks p sep h.0
split-join p (q ∷ ps) sep h =
    split-append p (join (q ∷ ps) sep) sep h.0 ∙ ap (λ r. p ∷ r) (split-join q ps sep h.1)

-- strings.ReplaceAll(s, "ab", "c"): left to right, without overlap.
unfoldable pub replace_all : ℕ → ℕ → ℕ → Text → Text
replace_all a b c [] = []
replace_all a b c (x ∷ []) = x ∷ []
replace_all a b c (x ∷ y ∷ s) =
    let hit = replace_all a b c s in
    let miss = replace_all a b c (y ∷ s) in if x == a && y == b then c ∷ hit else x ∷ miss

-- The text in front of the first `b`, or all of it.
unfoldable pub before_byte : Text → ℕ → Text
before_byte [] b = []
before_byte (c ∷ s) b = let rest = before_byte s b in if c == b then [] else c ∷ rest

pub before_byte-Lacks : (s : Text) (b : ℕ) → Lacks b s → before_byte s b ≡ s
unfolding before_byte
before_byte-Lacks [] b h = refl
before_byte-Lacks (c ∷ s) b h = ground (arith, before_byte-Lacks s b)

pub before_byte-append : (p s : Text) (b : ℕ) → Lacks b p → before_byte (p ++ b ∷ s) b ≡ p
unfolding before_byte
before_byte-append [] s b h = ground arith
before_byte-append (c ∷ p) s b h = ground (arith, before_byte-append p s b)

before_byte-keeps-Lacks : (s : Text) (b : ℕ) → Lacks b (before_byte s b)
unfolding before_byte
before_byte-keeps-Lacks [] b = tt
before_byte-keeps-Lacks (c ∷ s) b = ground (arith, before_byte-keeps-Lacks s b)

-- The text behind the last `b`, if there is one.
unfoldable pub after_last : Text → ℕ → Option Text
after_last [] b = none
after_last (c ∷ s) b = elim (after_last s b) [
  | some t ↦ some t
  | none ↦ if c == b then some s else none
]

after_last-Lacks : (s : Text) (b : ℕ) → Lacks b s → after_last s b ≡ none
unfolding after_last
after_last-Lacks [] b h = refl
after_last-Lacks (c ∷ s) b h = ground (arith, after_last-Lacks s b)

pub after_last-append : (s t : Text) (b : ℕ) → Lacks b t → after_last (s ++ b ∷ t) b ≡ some t
unfolding after_last
after_last-append [] t b h = ground (arith, after_last-Lacks t b)
after_last-append (c ∷ s) t b h = ground (arith, after_last-append s t b)
