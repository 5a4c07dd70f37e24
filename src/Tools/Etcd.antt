-- ===== src/Tools/Etcd.antt =====
-- internal/tools/etcd.go and etcd_preflight.go: the queries and the snapshot of etcd, and the probe of
-- its quorum.
pub mod Quorum
pub mod Snapshot
pub mod Tests
use talos_mcp_server.Common.{
  ℕ, zero, suc, ◌+◌, ◌-◌, ◌*◌, ◌/◌, ◌%◌, ◌^◌, ◌≤◌, ◌<◌, ◌≡◌, refl, sym, ap, ◌∙◌, ◌≢◌, ◌↔◌, ◌⊎◌, inl,
  inr, Bool, true, false, not, ◌&&◌, ◌||◌, Option, none, some, List, [], ◌∷◌, ◌++◌, map, append-nil,
  append_assoc, arith, ltb, leb, ◌==◌, if◌then◌else◌, Bool-cases, if_cases, Option-cases, ◌>>=◌,
  is_ok, Result-cases, Text, codes, length, take, drop, length-append, is_empty, All, All-append,
  In, In-append_left, In-append_right, In-append_cases, Result, ok, err,
}
use talos_mcp_server.Text.{
  text_eq, text_eq_iff, text_eq_refl, has_prefix, after_prefix, trim_prefix, has_prefix-append,
  has_prefix_split, contains_byte, Lacks, contains_byte-Lacks, trim_left, trim_right, trim_space,
  to_lower, to_lower_idem,
}
use talos_mcp_server.Text.FilePath.{is_abs, clean}
use talos_mcp_server.Net.{
  Ip, v4_in_v6_prefix, is_mapped, to4, cidr_mask, and_bytes, mask_ip, network, or_self, number_mask,
  same_masked, contains, byte_at, is_unspecified, is_loopback, is_link_local_unicast, is_multicast,
  Prefix, IpNet, Net,
}
use talos_mcp_server.Nodes.{NodeError, with_nodes}
use talos_mcp_server.Tools.Effect.{Handlers}
use talos_mcp_server.Tools.SecretFile.{FileSystem, FileNode, regular, set, Source, copied}

pub data EtcdError : Type 0 where
  path_missing path_not_absolute path_not_clean : EtcdError
  one_node_only : ℕ → EtcdError
  nodes_refused : NodeError → EtcdError
  unknown_subcommand : Text → EtcdError
  call_failed : Text → EtcdError
  create_failed stream_failed sync_failed close_failed : EtcdError

pub data EtcdQuery : Type 0 where
  member_list status : EtcdQuery

-- `switch args.Subcommand`
pub etcd_query : Text → Option EtcdQuery
etcd_query s =
    if is_empty s || text_eq s (codes "members")
    then some member_list
    else if text_eq s (codes "status")
    then some status
    else none

pub record EtcdSnapshotArgs : Type 0 where
  pub nodes : List Text
  pub path : Text

pub record EtcdSnapshotResult : Type 0 where
  pub path : Text
  pub bytes : ℕ

-- What the operating system does: the file that os.Create truncates or makes at the end of a path's
-- links, with its permission bits, and the errors.
pub record SnapshotOs : Type 0 where
  pub create : FileSystem → Text → Option (Text × ℕ)
  pub room : Option ℕ
  pub sync_error : Bool
  pub close_error : Bool
  -- of os.Remove, which nobody looks at
  pub remove_error : Bool

-- Why a node's member list does not count.
pub data FetchError : Type 0 where
  fetch_refused : NodeError → FetchError
  fetch_failed : Text → FetchError

pub data PreflightError : Type 0 where
  no_api_nodes : PreflightError
  no_member_list : Option FetchError → PreflightError

-- The set `seen` of member IDs.
pub has_id : ℕ → List ℕ → Bool
has_id id [] = false
has_id id (i ∷ ids) = id == i || has_id id ids

pub see : List ℕ → List ℕ → List ℕ
see seen [] = seen
see seen (id ∷ ids) = see (if has_id id seen then seen else id ∷ seen) ids

pub seen_ids : List ℕ → List (List ℕ) → List ℕ
seen_ids seen [] = seen
seen_ids seen (m ∷ messages) = seen_ids (see seen m) messages

-- On the selection of a node and its answer: the count, or what the next nodes give, with the last error.
pub judge_members :
    Result NodeError (List Text)
    → Result Text (List (List ℕ))
    → (Option FetchError → Result PreflightError ℕ)
    → Option FetchError
    → Result PreflightError ℕ
judge_members (err e) reply next last = next (some (fetch_refused e))
judge_members (ok t) (err e) next last = next (some (fetch_failed e))
judge_members (ok t) (ok messages) next last =
    if is_empty (seen_ids [] messages) then next last else ok (length (seen_ids [] messages))

abbrev refused_as : Result NodeError (List Text) → Result EtcdError (List Text)
refused_as (ok t) = ok t
refused_as (err e) = err (nodes_refused e)

abbrev failed_as : {A : Type 0} → Result Text A → Result EtcdError A
failed_as (ok a) = ok a
failed_as (err e) = err (call_failed e)

abbrev known : Text → Option EtcdQuery → Result EtcdError EtcdQuery
known s (some q) = ok q
known s none = err (unknown_subcommand s)

abbrev pub Saving : Type 0
Saving = Result EtcdError EtcdSnapshotResult × FileSystem

-- From os.Create on. A failure to stream removes what the path names; later ones leave it.
pub store_snapshot : SnapshotOs → Text → Source → Option (Text × ℕ) → FileSystem → Saving
store_snapshot os path src none fs = (err create_failed, fs)
store_snapshot os path src (some (target, mode)) fs =
    let written = set target (some (regular mode (copied os.room src).0)) fs in
    if not (copied os.room src).1
    then (err stream_failed, if os.remove_error then written else set path none written)
    else if os.sync_error
    then (err sync_failed, written)
    else if os.close_error
    then (err close_failed, written)
    else (ok (record { path = path; bytes = length (copied os.room src).0 }), written)

pub save : SnapshotOs → Text → Result Text Source → FileSystem → Saving
save os path (err e) fs = (err (call_failed e), fs)
save os path (ok src) fs = store_snapshot os path src (os.create fs path) fs

pub save_from :
    SnapshotOs
    → (List Text → Result Text Source)
    → Text
    → Result NodeError (List Text)
    → FileSystem
    → Saving
save_from os snapshot path (err e) fs = (err (nodes_refused e), fs)
save_from os snapshot path (ok targets) fs = save os path (snapshot targets) fs

module _ (net : Net) (h : Handlers) where
  -- `query` stands for the two calls of the API.
  pub handle_etcd :
      (List Text → EtcdQuery → Result Text Text) → Text → List Text → Result EtcdError Text
  handle_etcd query subcommand nodes = do
    targets ← refused_as (with_nodes net [] h.allowed_nodes nodes)
    q ← known subcommand (etcd_query subcommand)
    failed_as (query targets q)

  -- `snapshot` stands for the call of the API.
  pub handle_etcd_snapshot :
      SnapshotOs → (List Text → Result Text Source) → EtcdSnapshotArgs → FileSystem → Saving
  handle_etcd_snapshot os snapshot args fs =
      if is_empty args.path
      then (err path_missing, fs)
      else if not (is_abs args.path)
      then (err path_not_absolute, fs)
      else if not (text_eq (clean args.path) args.path)
      then (err path_not_clean, fs)
      else if not (length args.nodes == 1)
      then (err (one_node_only (length args.nodes)), fs)
      else save_from os snapshot args.path (with_nodes net [] h.allowed_nodes args.nodes) fs

  -- The first node whose members, which come in several messages, are not empty. The API may answer
  -- every call in its own way: it gets the number of the calls before.
  pub fetch_etcd_member_count :
      (ℕ → Text → Result Text (List (List ℕ)))
      → ℕ
      → Option FetchError
      → List Text
      → Result PreflightError ℕ
  fetch_etcd_member_count members past last [] = err (no_member_list last)
  fetch_etcd_member_count members past last (node ∷ nodes) =
      judge_members (with_nodes net [] h.allowed_nodes (node ∷ [])) (members past node)
        (λ l. fetch_etcd_member_count members (suc past) l nodes) last

  pub count_healthy_etcd_peers : (ℕ → Text → Bool) → ℕ → List Text → ℕ
  count_healthy_etcd_peers responds past [] = 0
  count_healthy_etcd_peers responds past (node ∷ nodes) =
      let rest = count_healthy_etcd_peers responds (suc past) nodes in
      elim (with_nodes net [] h.allowed_nodes (node ∷ [])) [
        | err e ↦ rest
        | ok targets ↦ if responds past node then suc rest else rest
      ]

  -- The numbers of configured members and of healthy peers.
  pub preflight_etcd_quorum :
      (ℕ → Text → Result Text (List (List ℕ)))
      → (ℕ → Text → Bool)
      → List Text
      → Result PreflightError (ℕ × ℕ)
  preflight_etcd_quorum members responds api_nodes =
      if is_empty api_nodes then err no_api_nodes else (do
        configured ← fetch_etcd_member_count members 0 none api_nodes
        ok (configured, count_healthy_etcd_peers responds 0 api_nodes))
