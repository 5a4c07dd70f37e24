-- ===== src/Blocklist/Guard.antt =====
-- Which paths a patch that passes the guard does not name.
use talos_mcp_server.Common.{
  ◌≡◌, refl, ◌∙◌, ◌≢◌, ◌⊎◌, inl, inr, false, none, some, List, [], ◌∷◌, ◌++◌, append_assoc, arith,
  Text, All, In, In-append_left, In-append_right, ok,
}
use talos_mcp_server.Text.{Lacks}
use talos_mcp_server.Text.Parts.{join}
use talos_mcp_server.Blocklist.{
  Value, leaf, object, Fields, end, field, Decoder, path_conflicts, full_path, value_paths,
  collect_paths, yaml_paths, check_path, check_paths, extract_patch_paths, check_blocked_paths,
}
use talos_mcp_server.Blocklist.Paths.{Extends, path_conflicts_iff}

-- The key paths of a map that lead to a value that is no map, or to an empty one.
pub data LeadsTo : Fields → List Text → Type 0 where
  at_leaf : {k : Text} {m : Fields} → LeadsTo (field k leaf m) (k ∷ [])
  at_empty : {k : Text} {m : Fields} → LeadsTo (field k (object end) m) (k ∷ [])
  inside :
      {k j : Text} {v : Value} {n m : Fields} {ks : List Text}
      → LeadsTo (field j v n) ks
      → LeadsTo (field k (object (field j v n)) m) (k ∷ ks)
  later :
      {k : Text} {v : Value} {m : Fields} {ks : List Text} → LeadsTo m ks → LeadsTo (field k v m) ks

extend : Text → List Text → Text
extend prefix [] = prefix
extend prefix (k ∷ ks) = extend (full_path prefix k) ks

collect_paths-LeadsTo :
    (prefix : Text) {m : Fields} {ks : List Text}
    → LeadsTo m ks
    → In (extend prefix ks) (collect_paths prefix m)
unfolding collect_paths value_paths extend
collect_paths-LeadsTo prefix at_leaf = inl refl
collect_paths-LeadsTo prefix at_empty = inl refl
collect_paths-LeadsTo prefix (inside {k} {j} {v} {n} {m} {ks} w) =
    let full = full_path prefix k in
    In-append_left (extend full ks) (collect_paths full (field j v n)) (collect_paths prefix m)
      (collect_paths-LeadsTo full w)
collect_paths-LeadsTo prefix (later {k} {v} {m} {ks} w) =
    In-append_right (extend prefix ks) (value_paths (full_path prefix k) v) (collect_paths prefix m)
      (collect_paths-LeadsTo prefix w)

full_path_ne : (p k : Text) → p ≢ [] → full_path p k ≡ p ++ b'.' ∷ k
unfolding full_path
full_path_ne [] k h = absurd (h refl)
full_path_ne (c ∷ p) k h = refl

full_path-ne-nil : (p k : Text) → p ≢ [] → full_path p k ≢ []
unfolding full_path
full_path-ne-nil [] k h = absurd (h refl)
full_path-ne-nil (c ∷ p) k h = λ e. cc

extend-join :
    (p k : Text) (ks : List Text) → p ≢ [] → extend p (k ∷ ks) ≡ p ++ b'.' ∷ join (k ∷ ks) b'.'
unfolding extend join
extend-join p k [] h = full_path_ne p k h
extend-join p k (j ∷ ks) h =
    extend-join (full_path p k) j ks (full_path-ne-nil p k h)
    ∙ rw (full_path_ne p k h) (append_assoc p (b'.' ∷ k) (b'.' ∷ join (j ∷ ks) b'.'))

-- Below a first key that is not empty, the recorded path is the dotted path.
extend-nil : (k : Text) (ks : List Text) → k ≢ [] → extend [] (k ∷ ks) ≡ join (k ∷ ks) b'.'
unfolding extend full_path join
extend-nil k [] h = refl
extend-nil k (j ∷ ks) h = extend-join k j ks h

check_path_sound :
    (p b : Text) (bs : List Text) → check_path p bs ≡ ok tt → In b bs → path_conflicts p b ≡ false
unfolding check_path
check_path_sound p b [] h i = absurd i
check_path_sound p b (c ∷ bs) h (inl e) = ground arith
check_path_sound p b (c ∷ bs) h (inr i) = check_path_sound p b bs (ground arith) i

head_ok : (q : Text) (ps bs : List Text) → check_paths (q ∷ ps) bs ≡ ok tt → check_path q bs ≡ ok tt
unfolding check_paths
head_ok q ps bs h = ground arith

tail_ok :
    (q : Text) (ps bs : List Text) → check_paths (q ∷ ps) bs ≡ ok tt → check_paths ps bs ≡ ok tt
unfolding check_paths
tail_ok q ps bs h = ground arith

check_paths_sound :
    (p b : Text) (ps bs : List Text)
    → check_paths ps bs ≡ ok tt
    → In p ps
    → In b bs
    → path_conflicts p b ≡ false
unfolding check_paths
check_paths_sound p b [] bs h i j = absurd i
check_paths_sound p b (q ∷ ps) bs h (inl e) j = rw e (check_path_sound q b bs (head_ok q ps bs h) j)
check_paths_sound p b (q ∷ ps) bs h (inr i) j = check_paths_sound p b ps bs (tail_ok q ps bs h) i j

-- Neither path starts with the other, segment by segment.
abbrev pub Apart : List Text → List Text → Type 0
Apart ps bs = (¬ Extends ps bs) × (¬ Extends bs ps)

apart :
    (p : Text) (ps : List Text) (b : Text) (bs : List Text)
    → All (Lacks b'.') (p ∷ ps)
    → All (Lacks b'.') (b ∷ bs)
    → path_conflicts (join (p ∷ ps) b'.') (join (b ∷ bs) b'.') ≡ false
    → Apart (p ∷ ps) (b ∷ bs)
apart p ps b bs hp hb h = (λ e. cannot (inl e), λ e. cannot (inr e))
  where
    cannot : ¬ (Extends (p ∷ ps) (b ∷ bs) ⊎ Extends (b ∷ bs) (p ∷ ps))
    cannot e = cc (h, (path_conflicts_iff p ps b bs hp hb).1 e)

module _ (d : Decoder) where
  paths_checked :
      (doc : Text) (blocked : List Text) (ps : List Text) (b : Text)
      → check_blocked_paths d doc blocked ≡ ok tt
      → extract_patch_paths d doc ≡ ok ps
      → In b blocked
      → check_paths ps blocked ≡ ok tt
  unfolding check_blocked_paths
  paths_checked doc [] ps b h e i = absurd i
  paths_checked doc (c ∷ blocked) ps b h e i = ground arith

  -- If a strategic merge patch passes the guard, then no path of keys in the map that the guard decodes
  -- it to, down to a value or an empty map, equals a blocked path, lies below one or contains one,
  -- segment by segment; the segments hold no dots, and the first key of the path is not empty. This
  -- is about that map: of a text with several YAML documents it is the first one, and a directive such
  -- as $patch is a key as any other.
  pub merge_patch_guarded :
      (doc : Text) (blocked : List Text) (m : Fields) (k : Text) (ks : List Text) (b : Text)
      (bs : List Text)
      → check_blocked_paths d doc blocked ≡ ok tt
      → d.json_ops doc ≡ none
      → d.yaml_map doc ≡ some m
      → LeadsTo m (k ∷ ks)
      → k ≢ []
      → All (Lacks b'.') (k ∷ ks)
      → All (Lacks b'.') (b ∷ bs)
      → In (join (b ∷ bs) b'.') blocked
      → Apart (k ∷ ks) (b ∷ bs)
  unfolding extract_patch_paths yaml_paths
  merge_patch_guarded doc blocked m k ks b bs h j y w ne hk hb i =
      let ps = collect_paths [] m in
      let found : In (join (k ∷ ks) b'.') ps =
        rw (← extend-nil k ks ne) (collect_paths-LeadsTo [] w) in
      let passed = paths_checked doc blocked ps (join (b ∷ bs) b'.') h (ground arith) i in
      apart k ks b bs hk hb
        (check_paths_sound (join (k ∷ ks) b'.') (join (b ∷ bs) b'.') ps blocked passed found i)
