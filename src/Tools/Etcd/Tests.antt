-- ===== src/Tools/Etcd/Tests.antt =====
-- A cluster whose three members are listed twice, and a snapshot that breaks off.
use talos_mcp_server.Common.{
  ℕ, ◌≤◌, ◌≡◌, refl, Bool, true, false, none, some, List, [], ◌∷◌, ◌==◌, if◌then◌else◌, Text, codes,
  length, Result, ok, err,
}
use talos_mcp_server.Text.{text_eq}
use talos_mcp_server.Net.Sample.{sample_net}
use talos_mcp_server.Nodes.{with_nodes, check_nodes}
use talos_mcp_server.Tools.Samples.{sample_handlers}
use talos_mcp_server.Tools.SecretFile.{FileSystem, Source}
use talos_mcp_server.Tools.Etcd.{
  EtcdSnapshotArgs, SnapshotOs, Saving, preflight_etcd_quorum, fetch_etcd_member_count,
  count_healthy_etcd_peers, judge_members, seen_ids, see, has_id, handle_etcd_snapshot,
}
use talos_mcp_server.Tools.Etcd.Quorum.{Counted, preflight_etcd_quorum_sound}

abbrev api_nodes : List Text
api_nodes = codes "cp1" ∷ codes "cp2" ∷ codes "cp1" ∷ []

abbrev members : ℕ → Text → Result Text (List (List ℕ))
members past node =
    if past == 0 then err (codes "timeout") else ok ((1 ∷ 2 ∷ []) ∷ [] ∷ (2 ∷ 3 ∷ 1 ∷ []) ∷ [])

abbrev responds : ℕ → Text → Bool
responds past node = text_eq node (codes "cp1")

-- The node that is given twice counts twice.
counts : preflight_etcd_quorum sample_net sample_handlers members responds api_nodes ≡ ok (3, 2)
unfolding preflight_etcd_quorum fetch_etcd_member_count count_healthy_etcd_peers judge_members
    seen_ids see has_id with_nodes check_nodes text_eq
counts = refl

preflight_etcd_quorum_sound_example :
    Counted sample_net sample_handlers members api_nodes 3 × (2 ≤ length api_nodes)
preflight_etcd_quorum_sound_example =
    preflight_etcd_quorum_sound sample_net sample_handlers members responds api_nodes 3 2 counts

abbrev snapshot_os : SnapshotOs
snapshot_os = record {
  create = λ fs path. some (path, 420);
  room = none;
  remove_error = false;
  sync_error = true;
  close_error = false;
}

abbrev snapshot_args : EtcdSnapshotArgs
snapshot_args = record { nodes = codes "cp1" ∷ []; path = codes "/tmp/db" }

abbrev database : Source
database = record { data_read = codes "data"; failure = none }

abbrev snapshot : List Text → Result Text Source
snapshot targets = ok database

abbrev empty_disk : FileSystem
empty_disk path = none

abbrev snapshot_run : Saving
snapshot_run =
    handle_etcd_snapshot sample_net sample_handlers snapshot_os snapshot snapshot_args empty_disk
