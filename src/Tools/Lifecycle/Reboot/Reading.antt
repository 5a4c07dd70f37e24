-- ===== src/Tools/Lifecycle/Reboot/Reading.antt =====
-- `readBootID`, and the boot IDs that HandleReboot of internal/tools/lifecycle.go reads before the
-- reboot.
use talos_mcp_server.Common.{
  ◌≡◌, refl, ap, inl, inr, List, [], ◌∷◌, ◌++◌, arith, Bool-cases, Result-cases, Text, All, ok,
}
use talos_mcp_server.Text.{text_eq, text_eq_iff, text_eq_refl, trim_space}
use mathlib.Core.Path.{subst}
use talos_mcp_server.Tools.Effect.{History, mutations, Env, read_boot_id, authenticated, rpc}
use talos_mcp_server.Tools.Lifecycle.Reboot.{
  Clock, boot_id_of, read_boot, read_boot_ids, boot_id_unread,
}

-- A history and one that it grew into.
abbrev pub Later : History → History → Type 0
Later before after = (more : History) × (after ≡ more ++ before)

-- At that moment, the node answers with this boot ID.
abbrev pub BootAt : Env → Text → History → Text → Type 0
BootAt env node now id =
    (data_read : Text) × (env.reply now (authenticated (node ∷ [])) (read_boot_id node)
      ≡ ok data_read)
    × (id ≡ trim_space data_read)

-- The node answered so after the start, with no mutating call in between.
abbrev pub Recorded : Env → History → Text → Text → Type 0
Recorded env start node id =
    (before : History) × Later start before
    × (mutations before ≡ mutations start)
    × BootAt env node before id

module _ (clock : Clock) (env : Env) where
  pub read_boot_ok :
      {E : Type 0} (wrap : Text → E) (node : Text) (hist : History) (id : Text)
      → (read_boot clock env wrap node hist).0 ≡ ok id
      → BootAt env node hist id
        × ((read_boot clock env wrap node hist).1
            ≡ rpc (authenticated (node ∷ [])) (read_boot_id node) ∷ hist)
  unfolding read_boot
  read_boot_ok wrap node hist id h =
      elim (Result-cases (env.reply hist (authenticated (node ∷ [])) (read_boot_id node))) [
        | inl (data_read, e) ↦ ((data_read, e, ground arith), rw e refl)
        | inr (x, e) ↦ absurd (ground arith)
      ]

  -- The boot ID under which the node stands was recorded.
  abbrev pub Known : History → List (Text × Text) → Text → Type 0
  Known start ids node = Recorded env start node (boot_id_of node ids)

  add-Known :
      (start : History) (ids : List (Text × Text)) (m id n : Text)
      → Recorded env start m id
      → Known start ids n
      → Known start ((m, id) ∷ ids) n
  unfolding boot_id_of
  add-Known start ids m id n r k = elim (Bool-cases (text_eq m n)) [
    | inl e ↦ rw e (subst (λ j. Recorded env start j id) ((text_eq_iff m n).0 e) r)
    | inr e ↦ rw e k
  ]

  new-Known :
      (start : History) (ids : List (Text × Text)) (m id : Text)
      → Recorded env start m id
      → Known start ((m, id) ∷ ids) m
  unfolding boot_id_of
  new-Known start ids m id r = rw (text_eq_refl m) r

  -- Reading the boot IDs of the nodes records one for each.
  pub read_boot_ids-Known :
      (start : History) (nodes : List Text) (ids found : List (Text × Text)) (hist : History)
      → Later start hist
      → mutations hist ≡ mutations start
      → (read_boot_ids clock env nodes ids hist).0 ≡ ok found
      → ((n : Text) → Known start ids n → Known start found n) × All (Known start found) nodes
  unfolding read_boot_ids
  read_boot_ids-Known start [] ids found hist l q h =
      (λ n k. subst (λ t. Known start t n) (ground arith) k, tt)
  read_boot_ids-Known start (m ∷ ms) ids found hist (more, l) q h =
      elim (Result-cases (read_boot clock env (boot_id_unread m) m hist).0) [
        | inr (x, e) ↦ absurd (ground arith)
        | inl (id, e) ↦
            let (boot, grown) = read_boot_ok (boot_id_unread m) m hist id e in
            let here : Recorded env start m id = (hist, (more, l), q, boot) in
            let probe = rpc (authenticated (m ∷ [])) (read_boot_id m) in
            let (keep, all) =
              read_boot_ids-Known start ms ((m, id) ∷ ids) found (probe ∷ hist)
                (probe ∷ more, ap (λ t. probe ∷ t) l) q (rw (e, grown) at h) in
            (
              λ n k. keep n (add-Known start ids m id n here k),
              (keep m (new-Known start ids m id here), all),
            )
      ]
