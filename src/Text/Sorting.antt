-- ===== src/Text/Sorting.antt =====
-- sort.Strings of Go: the order of strings, byte by byte, and the sorted list.
use talos_mcp_server.Common.{
  ◌≡◌, refl, ◌⊎◌, inl, inr, Bool, true, false, ◌&&◌, ◌||◌, List, [], ◌∷◌, arith, ltb, ◌==◌,
  if◌then◌else◌, Bool-cases, Text, In,
}

unfoldable pub text_leb : Text → Text → Bool
text_leb [] t = true
text_leb (c ∷ s) [] = false
text_leb (c ∷ s) (d ∷ t) = ltb c d || (c == d && text_leb s t)

insert : Text → List Text → List Text
insert x [] = x ∷ []
insert x (y ∷ ys) = let rest = insert x ys in if text_leb x y then x ∷ y ∷ ys else y ∷ rest

unfoldable pub sort_strings : List Text → List Text
unfolding insert
sort_strings [] = []
sort_strings (x ∷ xs) = insert x (sort_strings xs)

unfoldable pub is_sorted : List Text → Bool
is_sorted [] = true
is_sorted (x ∷ []) = true
is_sorted (x ∷ y ∷ ys) = text_leb x y && is_sorted (y ∷ ys)

text_leb_total : (s t : Text) → text_leb s t ≡ false → text_leb t s ≡ true
unfolding text_leb
text_leb_total [] t h = cc
text_leb_total (c ∷ s) [] h = refl
text_leb_total (c ∷ s) (d ∷ t) h = ground (arith, text_leb_total s t)

insert-In : (v x : Text) (ys : List Text) → In v (insert x ys) → (v ≡ x) ⊎ In v ys
unfolding insert
insert-In v x [] i = i
insert-In v x (y ∷ ys) i = elim (Bool-cases (text_leb x y)) [
  | inl e ↦ rw e at i
  | inr e ↦ elim (rw e at i) [
    | inl p ↦ inr (inl p)
    | inr j ↦ elim (insert-In v x ys j) [ inl p ↦ inl p | inr k ↦ inr (inr k) ]
  ]
]

pub sort_strings-In : (v : Text) (xs : List Text) → In v (sort_strings xs) → In v xs
unfolding sort_strings
sort_strings-In v [] i = i
sort_strings-In v (x ∷ xs) i = elim (insert-In v x (sort_strings xs) i) [
  | inl p ↦ inl p
  | inr j ↦ inr (sort_strings-In v xs j)
]

insert-sorted : (x : Text) (ys : List Text) → is_sorted ys ≡ true → is_sorted (insert x ys) ≡ true
unfolding insert is_sorted
insert-sorted x [] h = refl
insert-sorted x (y ∷ []) h = ground (arith, text_leb_total x y)
insert-sorted x (y ∷ z ∷ zs) h =
    ground (arith, text_leb_total x y, text_leb_total x z, insert-sorted x (z ∷ zs))

sort_strings-sorted : (xs : List Text) → is_sorted (sort_strings xs) ≡ true
unfolding sort_strings is_sorted
sort_strings-sorted [] = refl
sort_strings-sorted (x ∷ xs) = insert-sorted x (sort_strings xs) (sort_strings-sorted xs)
