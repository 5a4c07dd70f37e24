-- ===== src/Tools/SecretFile/Guarded.antt =====
-- What `WriteSecretFile` leaves on the disk.
use talos_mcp_server.Common.{
  ℕ, ◌≡◌, refl, sym, ap, ◌∙◌, ◌≢◌, ◌⊎◌, inl, inr, true, false, not, Option, none, some, arith, leb,
  Bool-cases, if_cases, Option-cases, Text, length, is_empty, ok, err,
}
use talos_mcp_server.Text.{text_eq, text_eq_iff, text_eq_refl}
use talos_mcp_server.Text.FilePath.{is_abs, clean}
use talos_mcp_server.Tools.SecretFile.{
  through_symlink, already_exists, path_missing, path_not_absolute, path_not_clean, lstat_failed,
  FileNode, FileSystem, set, Source, Os, SecretFileResult, SecretFileError, Written, regular,
  symlink, other_node, copied, clean_up, fill_file, open_exclusive, write_new, write_secret_file,
  is_some, is_none,
}

-- The file is new and holds all the data, for its owner only; no other path has changed.
abbrev pub Stored : Os → Text → Source → FileSystem → SecretFileResult → FileSystem → Type 0
Stored os path src before r after =
    (src.failure ≡ none)
    × (before path ≡ none)
    × (after path ≡ some (regular 384 src.data_read))
    × ((q : Text) → q ≢ path → after q ≡ before q)
    × (r ≡ record {
      path = path;
      bytes = length src.data_read;
      sha256 = os.sha256_hex src.data_read;
    })

-- A success has stored the file; a failure has left every path as it was.
abbrev pub StoredOrSame : Os → Text → Source → FileSystem → Written → Type 0
StoredOrSame os path src before (ok r, after) = Stored os path src before r after
StoredOrSame os path src before (err e, after) = (q : Text) → after q ≡ before q

pub set_same :
    (path : Text) (file : Option FileNode) (fs : FileSystem) → set path file fs path ≡ file
set_same path file fs = rw (text_eq_refl path) refl

set_other :
    (path q : Text) (file : Option FileNode) (fs : FileSystem)
    → q ≢ path
    → set path file fs q ≡ fs q
set_other path q file fs ne =
    let differ : text_eq q path ≡ false = elim (Bool-cases (text_eq q path)) [
      | inl e ↦ absurd (ne ((text_eq_iff q path).0 e))
      | inr e ↦ e
    ] in
    rw differ refl

cleaned :
    (os : Os) (path : Text) (file : Option FileNode) (fs : FileSystem)
    → os.remove_error ≡ false
    → fs path ≡ none
    → (q : Text) → clean_up os path (set path file fs) q ≡ fs q
unfolding clean_up
cleaned os path file fs works free q = elim (Bool-cases (text_eq q path)) [
  | inl e ↦ rw works (rw e (sym (ap fs ((text_eq_iff q path).0 e) ∙ free)))
  | inr e ↦ rw works (rw e refl)
]

pub copied_whole :
    (room : Option ℕ) (src : Source)
    → (copied room src).1 ≡ true
    → (src.failure ≡ none) × ((copied room src).0 ≡ src.data_read)
unfolding copied is_none
copied_whole none src w = ground arith
copied_whole (some n) src w = elim (Bool-cases (leb (length src.data_read) n)) [
  | inl e ↦ ground arith
  | inr e ↦ ground arith
]

fill_file-StoredOrSame :
    (os : Os) (path : Text) (src : Source) (fs : FileSystem)
    → os.remove_error ≡ false
    → fs path ≡ none
    → StoredOrSame os path src fs (fill_file os path (copied os.room src) fs)
unfolding fill_file
fill_file-StoredOrSame os path src fs works free =
    let file = some (regular 384 (copied os.room src).0) in
    let back = cleaned os path file fs works free in
    if_cases (StoredOrSame os path src fs) (not (copied os.room src).1) _ _ (λ _. back)
      (λ w.
        if_cases (StoredOrSame os path src fs) os.sync_error _ _ (λ _. back)
          (λ _.
            if_cases (StoredOrSame os path src fs) os.close_error _ _ (λ _. back)
              (λ _.
                let (sound, all) = copied_whole os.room src (ground arith) in
                (
                  sound,
                  free,
                  set_same path file fs ∙ ap (λ c. some (regular 384 c)) all,
                  (λ q. set_other path q file fs),
                  ap (λ c. record { path = path; bytes = length c; sha256 = os.sha256_hex c }) all,
                ))))

open_exclusive-StoredOrSame :
    (os : Os) (path : Text) (src : Source) (fs : FileSystem)
    → os.remove_error ≡ false
    → StoredOrSame os path src fs (open_exclusive os path src fs)
unfolding open_exclusive is_some
open_exclusive-StoredOrSame os path src fs works = elim (Option-cases (fs path)) [
  | inr (n, taken) ↦ rw taken (λ q. refl)
  | inl free ↦ rw free (
      if_cases (StoredOrSame os path src fs) (os.open_error path) _ _ (λ _ q. refl)
        (λ _. fill_file-StoredOrSame os path src fs works free))
]

write_new_cases :
    (os : Os) (path : Text) (src : Source) (found : Option FileNode) (fs : FileSystem)
    → os.remove_error ≡ false
    → ((e : SecretFileError) × (write_new os path src found fs ≡ (err e, fs)))
      ⊎ ((found ≡ none)
          × StoredOrSame os path src (os.meanwhile fs) (write_new os path src found fs))
unfolding write_new
write_new_cases os path src (some (symlink to)) fs works = inl (through_symlink, refl)
write_new_cases os path src (some (regular mode content)) fs works = inl (already_exists, refl)
write_new_cases os path src (some other_node) fs works = inl (already_exists, refl)
write_new_cases os path src none fs works =
    inr (refl, open_exclusive-StoredOrSame os path src (os.meanwhile fs) works)

-- If removing a file does not fail, then writing a secret file is either refused before the disk is
-- touched, or its path is absolute and clean and names nothing, and then (others may change the disk
-- meanwhile) a success has created the file with mode 0600 and all the data of its source, where there
-- still was none, and changed no other path; a failure leaves every path as it was.
pub write_secret_file_guarded :
    (os : Os) (path : Text) (src : Source) (fs : FileSystem)
    → os.remove_error ≡ false
    → ((e : SecretFileError) × (write_secret_file os path src fs ≡ (err e, fs)))
      ⊎ ((is_abs path ≡ true)
          × (clean path ≡ path)
          × (fs path ≡ none)
          × StoredOrSame os path src (os.meanwhile fs) (write_secret_file os path src fs))
unfolding write_secret_file
write_secret_file_guarded os path src fs works = elim (Bool-cases (is_empty path)) [
  | inl e ↦ inl (path_missing, rw e refl)
  | inr e ↦ elim (Bool-cases (is_abs path)) [
    | inr a ↦ inl (path_not_absolute, rw (e, a) refl)
    | inl a ↦ elim (Bool-cases (text_eq (clean path) path)) [
      | inr c ↦ inl (path_not_clean, rw (e, a, c) refl)
      | inl c ↦ elim (Bool-cases (os.lstat_error path)) [
        | inl l ↦ inl (lstat_failed, rw (e, a, c, l) refl)
        | inr l ↦ elim (write_new_cases os path src (fs path) fs works) [
          | inl (f, p) ↦ inl (f, rw (e, a, c, l) p)
          | inr (free, s) ↦ inr (a, (text_eq_iff (clean path) path).0 c, free, rw (e, a, c, l) s)
        ]
      ]
    ]
  ]
]
