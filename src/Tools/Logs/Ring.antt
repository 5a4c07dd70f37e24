-- ===== src/Tools/Logs/Ring.antt =====
-- The ring buffer of `HandleDmesg` keeps the last lines.
use mathlib.Core.Path.{subst}
use talos_mcp_server.Common.{
  ℕ, zero, suc, ◌-◌, ◌≤◌, ◌<◌, ◌≡◌, refl, sym, ap, ◌∙◌, ◌⊎◌, inl, inr, Bool, true, Option, none,
  some, List, [], ◌∷◌, ◌++◌, append-nil, append_assoc, arith, ltb, if_cases, Text, length, drop,
  length-append, Result, ok, err,
}
use talos_mcp_server.Text.Parts.{split}
use talos_mcp_server.Net.{Net}
use talos_mcp_server.Nodes.{with_nodes}
use talos_mcp_server.Tools.Effect.{Handlers}
use talos_mcp_server.Tools.Stream.{Stream, note_error}
use talos_mcp_server.Tools.Logs.{
  Data, bytes, metadata, DmesgArgs, LogLines, LogsError, stream_failed, default_dmesg_max_lines,
  line_limit, trim_newlines, shift_left, set_at, push_line, push_lines, collect_ring, no_lines,
  handle_dmesg,
}
use talos_mcp_server.Tools.Logs.Bounds.{line_limit-pos}

-- The last elements of a list, at most so many.
pub last_n : {A : Type 0} → ℕ → List A → List A
last_n n xs = drop (length xs - n) xs

drop-nil : {A : Type 0} (k : ℕ) → drop {A = A} k [] ≡ []
drop-nil zero = refl
drop-nil (suc k) = refl

drop-append :
    {A : Type 0} (k : ℕ) (xs ys : List A) → k ≤ length xs → drop k (xs ++ ys) ≡ drop k xs ++ ys
drop-append zero xs ys l = refl
drop-append (suc k) [] ys l = absurd (omega arith)
drop-append (suc k) (x ∷ xs) ys l = drop-append k xs ys (omega arith)

drop-drop : {A : Type 0} (k : ℕ) (xs : List A) → drop 1 (drop k xs) ≡ drop (suc k) xs
drop-drop zero xs = refl
drop-drop (suc k) [] = refl
drop-drop (suc k) (x ∷ xs) = drop-drop k xs

length-drop : {A : Type 0} (k : ℕ) (xs : List A) → length (drop k xs) ≡ length xs - k
length-drop zero xs = omega arith
length-drop (suc k) [] = omega arith
length-drop (suc k) (x ∷ xs) = omega (arith, length-drop k xs)

-- Shifting left and storing at the end drops the first element and appends.
set_at-shift_left :
    (x : Text) (xs : List Text) (line : Text)
    → set_at (length xs) line (shift_left (x ∷ xs)) ≡ xs ++ line ∷ []
unfolding set_at shift_left
set_at-shift_left x [] line = refl
set_at-shift_left x (y ∷ ys) line = ap (λ t. y ∷ t) (set_at-shift_left y ys line)

full_buffer :
    (max : ℕ) (lines : List Text) (line : Text)
    → 1 ≤ max
    → length lines ≡ max
    → set_at (max - 1) line (shift_left lines) ≡ drop 1 lines ++ line ∷ []
full_buffer max [] line one e = absurd (omega arith)
full_buffer max (x ∷ xs) line one e =
    let i : max - 1 ≡ length xs = omega arith in rw i (set_at-shift_left x xs line)

-- The lines that are not empty.
pub visible : List Text → List Text
visible [] = []
visible ([] ∷ ls) = visible ls
visible ((c ∷ l) ∷ ls) = (c ∷ l) ∷ visible ls

push_line-last :
    (max : ℕ) (xs : List Text) (c : ℕ) (line : Text)
    → 1 ≤ max
    → push_line max (last_n max xs) (c ∷ line) ≡ last_n max (xs ++ (c ∷ line) ∷ [])
unfolding push_line last_n
push_line-last max xs c line one =
    let k = length xs - max in
    let kept = length-drop k xs in
    let longer = length-append xs ((c ∷ line) ∷ []) in
    if_cases (λ b. b ≡ drop (length (xs ++ (c ∷ line) ∷ []) - max) (xs ++ (c ∷ line) ∷ []))
      (ltb (length (drop k xs)) max) _ _
      (λ t.
        let short : length (drop k xs) < max = ground arith in
        let inside : k ≤ length xs = omega arith in
        let same : k ≡ length (xs ++ (c ∷ line) ∷ []) - max = omega arith in
        sym (drop-append k xs ((c ∷ line) ∷ []) inside)
        ∙ ap (λ j. drop j (xs ++ (c ∷ line) ∷ [])) same)
      (λ f.
        let long : max ≤ length (drop k xs) = ground arith in
        let inside : suc k ≤ length xs = omega arith in
        let same : suc k ≡ length (xs ++ (c ∷ line) ∷ []) - max = omega arith in
        full_buffer max (drop k xs) (c ∷ line) one (omega arith)
        ∙ ap (λ t. t ++ (c ∷ line) ∷ []) (drop-drop k xs)
        ∙ sym (drop-append (suc k) xs ((c ∷ line) ∷ []) inside)
        ∙ ap (λ j. drop j (xs ++ (c ∷ line) ∷ [])) same)

push_lines-last :
    (max : ℕ) (xs ls : List Text)
    → 1 ≤ max
    → push_lines max (last_n max xs) ls ≡ last_n max (xs ++ visible ls)
unfolding push_lines push_line visible
push_lines-last max xs [] one = ap (last_n max) (sym (append-nil xs))
push_lines-last max xs ([] ∷ ls) one = push_lines-last max xs ls one
push_lines-last max xs ((c ∷ l) ∷ ls) one =
    ap (λ t. push_lines max t ls) (push_line-last max xs c l one)
    ∙ push_lines-last max (xs ++ (c ∷ l) ∷ []) ls one
    ∙ ap (last_n max) (append_assoc xs ((c ∷ l) ∷ []) (visible ls))

-- All the lines of a stream that are not empty.
pub visible_lines : List Data → List Text
visible_lines [] = []
visible_lines (bytes b ∷ ms) = visible (split (trim_newlines b) 10) ++ visible_lines ms
visible_lines (metadata m ∷ ms) = visible_lines ms

-- A stream that broke is an error; one that ended gives its last lines.
abbrev pub LastLines : ℕ → List Text → Option Text → Result LogsError LogLines → Type 0
LastLines max all end r =
    ((end ≡ none) × (out : LogLines) × (r ≡ ok out) × (out.lines ≡ last_n max all))
    ⊎ ((e : Text) × (end ≡ some e) × (r ≡ err (stream_failed e)))

collect_ring-LastLines :
    (max : ℕ) (xs : List Text) (kept : LogLines) (ms : List Data) (end : Option Text)
    → 1 ≤ max
    → kept.lines ≡ last_n max xs
    → LastLines max (xs ++ visible_lines ms) end (collect_ring max kept ms end)
unfolding collect_ring visible_lines
collect_ring-LastLines max xs kept [] none one e =
    inl (refl, kept, refl, e ∙ ap (last_n max) (sym (append-nil xs)))
collect_ring-LastLines max xs kept [] (some f) one e = inr (f, refl, refl)
collect_ring-LastLines max xs kept (bytes b ∷ ms) end one e =
    let ls = split (trim_newlines b) 10 in
    let more : LogLines = record kept { lines = push_lines max kept.lines ls } in
    subst (λ all. LastLines max all end (collect_ring max more ms end))
      (append_assoc xs (visible ls) (visible_lines ms))
      (collect_ring-LastLines max (xs ++ visible ls) more ms end one
        (ap (λ t. push_lines max t ls) e ∙ push_lines-last max xs ls one))
collect_ring-LastLines max xs kept (metadata m ∷ ms) end one e =
    collect_ring-LastLines max xs (record kept { node_errors = note_error m kept.node_errors }) ms
      end one e

module _ (net : Net) (h : Handlers) where
  -- For permitted nodes, a stream that opens, and a number of lines for which a buffer can be
  -- allocated, the ring buffer of dmesg implements keeping the whole stream: the result is the last of its non-empty lines, as many as were asked for (200 if the number
  -- is not positive), or the error of a stream that breaks.
  pub handle_dmesg-LastLines :
      (fits : ℕ → Bool) (dmesg : List Text → Result Text (Stream Data)) (args : DmesgArgs)
      (targets : List Text) (stream : Stream Data)
      → with_nodes net [] h.allowed_nodes args.nodes ≡ ok targets
      → dmesg targets ≡ ok stream
      → fits (line_limit default_dmesg_max_lines args.max_lines) ≡ true
      → LastLines
          (line_limit default_dmesg_max_lines args.max_lines)
          (visible_lines stream.messages)
          stream.failure
          (handle_dmesg net h fits dmesg args)
  unfolding handle_dmesg last_n
  handle_dmesg-LastLines fits dmesg args targets stream permitted opens room =
      let max = line_limit default_dmesg_max_lines args.max_lines in
      rw permitted (
        rw (opens, room)
          (collect_ring-LastLines max [] no_lines stream.messages stream.failure
            (line_limit-pos default_dmesg_max_lines args.max_lines (omega arith))
            (sym (drop-nil (0 - max)))))
