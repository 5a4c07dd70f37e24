-- ===== src/Blocklist/Paths.antt =====
-- Dotted paths compared as lists of segments.
use talos_mcp_server.Common.{
  ℕ, ◌≡◌, refl, sym, ap, ◌∙◌, ◌↔◌, ◌⊎◌, inl, inr, true, List, [], ◌∷◌, ◌++◌, append-nil,
  append_assoc, arith, Bool-cases, Text, All,
}
use talos_mcp_server.Text.{
  text_eq_iff, text_eq_refl, has_prefix, has_prefix-append, has_prefix_split, Lacks,
}
use talos_mcp_server.Text.Parts.{split, join, split-join, split-append}
use talos_mcp_server.Blocklist.{path_conflicts}

join-append :
    (p : Text) (ps : List Text) (q : Text) (qs : List Text) (sep : ℕ)
    → join ((p ∷ ps) ++ q ∷ qs) sep ≡ join (p ∷ ps) sep ++ sep ∷ join (q ∷ qs) sep
unfolding join
join-append p [] q qs sep = refl
join-append p (r ∷ ps) q qs sep = rw (join-append r ps q qs sep) (sym (append_assoc p _ _))

split-join-append :
    (p : Text) (ps : List Text) (rest : Text) (sep : ℕ)
    → All (Lacks sep) (p ∷ ps)
    → split (join (p ∷ ps) sep ++ sep ∷ rest) sep ≡ (p ∷ ps) ++ split rest sep
unfolding join
split-join-append p [] rest sep h = split-append p rest sep h.0
split-join-append p (q ∷ ps) rest sep h =
    rw (append_assoc p)
      (split-append p _ sep h.0 ∙ ap (λ r. p ∷ r) (split-join-append q ps rest sep h.1))

-- One list of segments starts with the other.
abbrev pub Extends : List Text → List Text → Type 0
Extends ps bs = (r : List Text) × (ps ≡ bs ++ r)

below_sound :
    (p : Text) (ps : List Text) (b : Text) (bs : List Text)
    → All (Lacks b'.') (p ∷ ps)
    → All (Lacks b'.') (b ∷ bs)
    → has_prefix (join (p ∷ ps) b'.') (join (b ∷ bs) b'.' ++ b'.' ∷ []) ≡ true
    → Extends (p ∷ ps) (b ∷ bs)
below_sound p ps b bs hp hb e =
    let whole = join (b ∷ bs) b'.' in
    let (r, q) = has_prefix_split (join (p ∷ ps) b'.') (whole ++ b'.' ∷ []) e in
    (
      split r b'.',
      sym (split-join p ps b'.' hp)
          ∙ ap (λ s. split s b'.') (q ∙ append_assoc whole (b'.' ∷ []) r)
          ∙ split-join-append b bs r b'.' hb,
    )

below_complete :
    (b : Text) (bs : List Text) (q : Text) (qs : List Text)
    → has_prefix (join ((b ∷ bs) ++ q ∷ qs) b'.') (join (b ∷ bs) b'.' ++ b'.' ∷ []) ≡ true
below_complete b bs q qs =
    rw
      (
        join-append b bs q qs b'.',
        ← append_assoc (join (b ∷ bs) b'.') (b'.' ∷ []) (join (q ∷ qs) b'.'),
      )
      (has_prefix-append (join (b ∷ bs) b'.' ++ b'.' ∷ []) (join (q ∷ qs) b'.'))

path_conflicts_comm : (p b : Text) → path_conflicts p b ≡ path_conflicts b p
unfolding path_conflicts
path_conflicts_comm p b = ground (arith, text_eq_iff p b, text_eq_iff b p)

conflicts_above :
    (b : Text) (bs r : List Text)
    → path_conflicts (join ((b ∷ bs) ++ r) b'.') (join (b ∷ bs) b'.') ≡ true
unfolding path_conflicts
conflicts_above b bs [] = rw (append-nil bs) (ground (arith, text_eq_refl (join (b ∷ bs) b'.')))
conflicts_above b bs (q ∷ qs) = ground (arith, below_complete b bs q qs)

conflicts_sound :
    (p : Text) (ps : List Text) (b : Text) (bs : List Text)
    → All (Lacks b'.') (p ∷ ps)
    → All (Lacks b'.') (b ∷ bs)
    → path_conflicts (join (p ∷ ps) b'.') (join (b ∷ bs) b'.') ≡ true
    → Extends (p ∷ ps) (b ∷ bs) ⊎ Extends (b ∷ bs) (p ∷ ps)
unfolding path_conflicts
conflicts_sound p ps b bs hp hb h =
    let pj = join (p ∷ ps) b'.' in
    let bj = join (b ∷ bs) b'.' in
    elim (Bool-cases (has_prefix pj (bj ++ b'.' ∷ []))) [
      | inl e ↦ inl (below_sound p ps b bs hp hb e)
      | inr e ↦ elim (Bool-cases (has_prefix bj (pj ++ b'.' ∷ []))) [
        | inl f ↦ inr (below_sound b bs p ps hb hp f)
        | inr f ↦
            let same : pj ≡ bj = ground (arith, text_eq_iff pj bj) in
            inl (
              [],
              sym (split-join p ps b'.' hp)
                  ∙ ap (λ s. split s b'.') same
                  ∙ split-join b bs b'.' hb
                  ∙ sym (append-nil (b ∷ bs)),
            )
      ]
    ]

-- Two dotted paths conflict exactly when the segments of one start with those of the other: no
-- segment is matched in part.
pub path_conflicts_iff :
    (p : Text) (ps : List Text) (b : Text) (bs : List Text)
    → All (Lacks b'.') (p ∷ ps)
    → All (Lacks b'.') (b ∷ bs)
    → (path_conflicts (join (p ∷ ps) b'.') (join (b ∷ bs) b'.') ≡ true)
      ↔ (Extends (p ∷ ps) (b ∷ bs) ⊎ Extends (b ∷ bs) (p ∷ ps))
path_conflicts_iff p ps b bs hp hb = (conflicts_sound p ps b bs hp hb, complete)
  where
    complete :
        Extends (p ∷ ps) (b ∷ bs) ⊎ Extends (b ∷ bs) (p ∷ ps)
        → path_conflicts (join (p ∷ ps) b'.') (join (b ∷ bs) b'.') ≡ true
    complete (inl (r, e)) = rw e (conflicts_above b bs r)
    complete (inr (r, e)) =
        path_conflicts_comm (join (p ∷ ps) b'.') (join (b ∷ bs) b'.')
        ∙ rw e (conflicts_above p ps r)
