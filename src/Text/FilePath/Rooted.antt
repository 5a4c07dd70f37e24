-- ===== src/Text/FilePath/Rooted.antt =====
-- Cleaning a path behind the root leaves no element that leads out of a directory.
use talos_mcp_server.Common.{
  ◌≡◌, refl, ap, ◌≢◌, true, false, ◌||◌, List, [], ◌∷◌, arith, if_cases, Text, codes, is_empty, All,
}
use talos_mcp_server.Text.{text_eq, text_eq_iff, Lacks}
use talos_mcp_server.Text.Parts.{split, join, Lacks-split}
use talos_mcp_server.Text.FilePath.{is_abs, back, clean_element, clean_elements, reversed, clean}

-- A name of a directory entry: not empty, neither `.` nor `..`, and without a slash.
abbrev pub EntryName : Text → Type 0
EntryName e = (e ≢ []) × (e ≢ codes ".") × (e ≢ codes "..") × Lacks b'/' e

back-EntryName : (stack : List Text) → All EntryName stack → All EntryName (back true stack)
back-EntryName [] a = tt
back-EntryName (e ∷ stack) a =
    if_cases (All EntryName) (text_eq e (codes "..")) _ _
      (λ t. absurd (a.0.2 ((text_eq_iff e (codes "..")).0 t))) (λ _. a.1)

clean_element-EntryName :
    (stack : List Text) (e : Text)
    → Lacks b'/' e
    → All EntryName stack
    → All EntryName (clean_element true stack e)
unfolding clean_element
clean_element-EntryName stack e l a =
    if_cases (All EntryName) (is_empty e || text_eq e (codes ".")) _ _ (λ _. a)
      (λ f.
        if_cases (All EntryName) (text_eq e (codes "..")) _ _ (λ _. back-EntryName stack a)
          (λ g. (proper f g, a)))
  where
    proper :
        is_empty e || text_eq e (codes ".") ≡ false → text_eq e (codes "..") ≡ false → EntryName e
    proper f g = (
      λ p. let empty : is_empty e ≡ true = ap is_empty p in ground arith,
      λ p. let dot = (text_eq_iff e (codes ".")).1 p in ground arith,
      λ p. let dots = (text_eq_iff e (codes "..")).1 p in ground arith,
      l,
    )

clean_elements-EntryName :
    (stack es : List Text)
    → All (Lacks b'/') es
    → All EntryName stack
    → All EntryName (clean_elements true stack es)
unfolding clean_elements
clean_elements-EntryName stack [] l a = a
clean_elements-EntryName stack (e ∷ es) l a =
    clean_elements-EntryName (clean_element true stack e) es l.1
      (clean_element-EntryName stack e l.0 a)

reversed-EntryName :
    (es out : List Text) → All EntryName es → All EntryName out → All EntryName (reversed es out)
unfolding reversed
reversed-EntryName [] out a b = b
reversed-EntryName (e ∷ es) out a b = reversed-EntryName es (e ∷ out) a.1 (a.0, b)

-- A cleaned absolute path is the root and names of entries behind it.
pub clean_rooted :
    (path : Text)
    → is_abs path ≡ true
    → (es : List Text) × (clean path ≡ b'/' ∷ join es b'/') × All EntryName es
unfolding clean
clean_rooted path abs =
    let kept = reversed (clean_elements true [] (split path b'/')) [] in
    (
      kept,
      rw abs refl,
      reversed-EntryName (clean_elements true [] (split path b'/')) []
          (clean_elements-EntryName [] (split path b'/') (Lacks-split path b'/') tt) tt,
    )
