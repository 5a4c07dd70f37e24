-- ===== src/Subscriptions/Tests.antt =====
-- A manager with one subscription, and a watcher that meets an error.
use talos_mcp_server.CosiUri.{Urls, parse_cosi_uri}
use talos_mcp_server.Common.{
  ℕ, ◌≡◌, refl, true, not, ◌&&◌, none, some, List, [], ◌∷◌, ◌++◌, ◌==◌, Text, codes, All, In,
  Result, ok,
}
use talos_mcp_server.Text.{
  text_eq, text_eq_iff, text_eq_refl, has_prefix, after_prefix, trim_prefix, has_prefix-append,
  has_prefix_split, contains_byte, Lacks, contains_byte-Lacks, trim_left, trim_right, trim_space,
  to_lower, to_lower_idem,
}
use talos_mcp_server.Net.Sample.{sample_net}
use talos_mcp_server.Nodes.{check_node}
use talos_mcp_server.Subscriptions.{
  Manager, new_manager, member, find_sub, uris_of, subscribe, cleanup_session, bootstrapped,
  updated, Wake, context_done, arrived, run_watch,
}
use talos_mcp_server.Subscriptions.Tables.{
  is_open, Reachable, started, subscribed, Reachable-Linked,
}
use talos_mcp_server.Subscriptions.Teardown.{cleanup_session_clears}
use talos_mcp_server.Subscriptions.Watching.{
  is_bound, is_notified, is_end, count, before_end, run_watch_exact,
}

abbrev urls : Urls
urls = record {
  parse_url = λ uri. some (record {
    scheme = codes "talos";
    hostname = codes "n1";
    path = codes "/resource/cluster/Members";
  });
  path_unescape = λ part. some part;
}

abbrev resolve : Text → Text → Result Text Text
resolve ns kind = ok (codes "Members.cluster.talos.dev")

abbrev one : Manager
one = (subscribe sample_net urls none resolve new_manager (codes "s") (codes "u")).1

one_reached : Reachable sample_net urls none one
one_reached = subscribed resolve (codes "s") (codes "u") started

one_open : find_sub one.subs (codes "s") (codes "u") ≡ some 0
unfolding subscribe parse_cosi_uri text_eq talos_mcp_server.Text.Parts.split trim_prefix check_node
one_open = refl

Reachable-Linked_example :
    is_open (find_sub one.subs (codes "s") (codes "u"))
    ≡ member (codes "u") (uris_of one.sessions (codes "s"))
Reachable-Linked_example = Reachable-Linked sample_net urls none (codes "s") (codes "u") one_reached

cleanup_session_clears_example :
    In 0 (cleanup_session one (codes "s")).cancelled
    × (is_open (find_sub (cleanup_session one (codes "s")).subs (codes "s") (codes "u")) ≡ (
        is_open (find_sub one.subs (codes "s") (codes "u"))
        && not (text_eq (codes "s") (codes "s"))))
    × (ended : List ℕ) × ((cleanup_session one (codes "s")).cancelled ≡ ended ++ one.cancelled)
    × All (λ w. (v : Text) × (find_sub one.subs (codes "s") v ≡ some w)) ended
cleanup_session_clears_example =
    cleanup_session_clears sample_net urls none (codes "s") (codes "u") (codes "s") (codes "u") 0
      one_reached one_open

abbrev change : Wake
change = arrived (record { event_type = updated; allowed = true; delivered = some true })

-- A change that is found behind the end of the context is not sent.
abbrev found : List Wake
found =
    arrived (record { event_type = bootstrapped; allowed = true; delivered = some true })
    ∷ change
    ∷ context_done
    ∷ change
    ∷ []

found_bound : All (λ w. is_bound w ≡ true) found
unfolding is_bound
found_bound = (refl, (refl, (refl, (refl, tt))))

run_watch_exact_example :
    ((run_watch found).0 ≡ count is_notified (before_end found))
    × ((run_watch found).1 ≡ (count is_end found == 0))
run_watch_exact_example = run_watch_exact found found_bound
