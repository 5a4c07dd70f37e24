-- ===== src/Tools/Etcd/Snapshot.antt =====
-- What `HandleEtcdSnapshot` needs, and what it leaves on the disk.
use talos_mcp_server.Common.{ℕ, ◌≡◌, ◌⊎◌, true, false, none, some, Text, length, ok, err}
use talos_mcp_server.Net.{Net}
use talos_mcp_server.Tools.SecretFile.{FileSystem, regular, Source, copied}
use talos_mcp_server.Tools.Etcd.{
  SnapshotOs, Saving, create_failed, stream_failed, sync_failed, close_failed,
}

-- All the data of the snapshot are in the file that the path leads to.
abbrev pub Holds : SnapshotOs → Text → Source → FileSystem → FileSystem → Type 0
Holds os path src before after =
    (src.failure ≡ none)
    × (target : Text) × (mode : ℕ) × (os.create before path ≡ some (target, mode))
    × (after target ≡ some (regular mode src.data_read))

-- What a broken stream leaves: nothing at the path if the removal succeeds; else what was copied.
abbrev pub Broken : SnapshotOs → Text → Source → FileSystem → FileSystem → Type 0
Broken os path src before after =
    ((os.remove_error ≡ false) × (after path ≡ none))
    ⊎ ((os.remove_error ≡ true)
        × (target : Text) × (mode : ℕ) × (os.create before path ≡ some (target, mode))
        × (after target ≡ some (regular mode (copied os.room src).0)))

-- A success holds the snapshot; a failure to create changes nothing, a broken stream leaves the path
-- removed or what was copied, and a failure to sync or to close leaves the snapshot.
abbrev pub Saved : SnapshotOs → Text → Source → FileSystem → Saving → Type 0
Saved os path src before (ok r, after) =
    Holds os path src before after × (r.bytes ≡ length src.data_read)
Saved os path src before (err create_failed, after) = after ≡ before
Saved os path src before (err stream_failed, after) = Broken os path src before after
Saved os path src before (err sync_failed, after) = Holds os path src before after
Saved os path src before (err close_failed, after) = Holds os path src before after
Saved os path src before (err e, after) = ⊥
