-- ===== src/Tools/Samples.antt =====
-- Concrete surroundings of the handlers, for the tests: a node at 1.9.3 that accepts every call.
use talos_mcp_server.Common.{true, false, none, some, [], ◌++◌, codes, ok}
use talos_mcp_server.Tools.Effect.{Env, Handlers}
use talos_mcp_server.Tools.ConfigFile.{Disk}
use talos_mcp_server.Blocklist.{Decoder, end}

abbrev pub sample_env : Env
sample_env = record {
  reply = λ past channel c. ok (codes "done");
  version_reply = λ past targets node. ok (record { major = 1; minor = 9; patch = 3 });
  dial_reply = λ past endpoint fp. ok tt;
  load_patch = λ patch. ok patch;
  apply_patch = λ patch body. ok (body ++ patch);
  config_resource = λ answer. record {
    annotations_empty = false;
    is_protobuf = true;
    protobuf_spec = none;
    yaml_spec = some answer;
  };
  yaml_string = λ spec. some spec;
  marshal_resource = λ answer. ok answer;
}

abbrev pub sample_handlers : Handlers
sample_handlers = record {
  allowed_nodes = none;
  allowed_paths = [];
  skip_version_check = false;
  blocked_config_paths = [];
  enable_insecure = true;
  insecure_allowed_nodes = none;
  meta_privileged_keys = [];
}

abbrev pub sample_disk : Disk
sample_disk = record {
  lstat = λ path. some true;
  open_file = λ path. some (some (codes "machine: {}"));
}

abbrev pub sample_patch_decoder : Decoder
sample_patch_decoder = record { json_ops = λ doc. none; yaml_map = λ doc. some end }
