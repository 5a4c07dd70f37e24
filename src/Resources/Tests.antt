-- ===== src/Resources/Tests.antt =====
-- Reading the list of a kind of resources from a node, which answers with two of them.
use talos_mcp_server.CosiUri.{Urls, parse_cosi_uri}
use talos_mcp_server.Common.{◌≡◌, refl, none, some, List, [], ◌∷◌, ◌++◌, Text, codes, Result, ok}
use talos_mcp_server.Text.{text_eq, trim_prefix}
use talos_mcp_server.Text.Parts.{split}
use talos_mcp_server.Net.Sample.{sample_net}
use talos_mcp_server.Nodes.{with_nodes, check_nodes}
use talos_mcp_server.Tools.Effect.{History}
use talos_mcp_server.Tools.Samples.{sample_env}
use talos_mcp_server.Tools.Queries.Tests.{sample_cosi}
use talos_mcp_server.Resources.{
  Json, ReadError, collect_items, list_items, read_resource, handle_cosi_resource,
}
use talos_mcp_server.Resources.Capped.{ReadAs, read_cosi_capped}

abbrev sample_urls : Urls
sample_urls = record {
  parse_url = λ uri. some (record {
    scheme = codes "talos";
    hostname = codes "n1";
    path = codes "/resource/cluster/Members";
  });
  path_unescape = λ part. some part;
}

abbrev print_all : List Text → Text
print_all [] = []
print_all (r ∷ rs) = r ++ b',' ∷ print_all rs

abbrev sample_json : Json
sample_json = record {
  payload = λ p. ok (print_all p.results);
  version_response = λ answer. ok answer;
  definitions = λ summaries. ok (print_all summaries);
}

abbrev read_run : Result ReadError Text × History
read_run =
    handle_cosi_resource sample_net sample_urls sample_cosi sample_json sample_env none (codes "u")
      []

listed : read_run.0 ≡ ok (codes "done,done,")
unfolding handle_cosi_resource read_resource list_items collect_items parse_cosi_uri text_eq split
    trim_prefix with_nodes check_nodes
listed = refl

read_cosi_capped_example :
    ReadAs sample_net sample_urls sample_cosi sample_json sample_env none
      (codes "u")
      (codes "done,done,")
      read_run.1
      []
read_cosi_capped_example =
    read_cosi_capped sample_net sample_urls sample_cosi sample_json sample_env none (codes "u")
      (codes "done,done,") [] listed
