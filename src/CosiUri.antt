-- ===== src/CosiUri.antt =====
-- ParseCOSIURI of internal/resources/resources.go: the URI of a COSI resource.
use talos_mcp_server.Common.{
  Bool, true, false, not, Option, none, some, List, [], ◌∷◌, if◌then◌else◌, ◌>>=◌, Text, codes,
  is_empty, Result, ok, err,
}
use talos_mcp_server.Text.{text_eq, trim_prefix}
use talos_mcp_server.Text.Parts.{split}

-- What the code uses of net/url.
pub record Url : Type 0 where
  pub scheme : Text
  pub hostname : Text
  pub path : Text

pub record Urls : Type 0 where
  pub parse_url : Text → Option Url
  pub path_unescape : Text → Option Text

pub data UriError : Type 0 where
  unreadable_uri wrong_scheme missing_node wrong_path bad_namespace bad_type bad_id : UriError
  empty_namespace empty_type : UriError

pub record CosiUri : Type 0 where
  pub node : Text
  pub namespace : Text
  pub resource_type : Text
  pub resource_id : Text

abbrev or_fail : {E A : Type 0} → E → Option A → Result E A
or_fail e none = err e
or_fail e (some a) = ok a

abbrev ensure : {E : Type 0} → Bool → E → Result E (Unit {0})
ensure true e = ok tt
ensure false e = err e

-- The fourth part, if it is there and not empty.
unescape_id : Urls → List Text → Result UriError Text
unescape_id urls [] = ok []
unescape_id urls (p ∷ ps) = if is_empty p then ok [] else or_fail bad_id (urls.path_unescape p)

parse_path : Urls → Text → List Text → Result UriError CosiUri
unfolding unescape_id
parse_path urls node (root ∷ ns ∷ kind ∷ rest) = do
  _ ← ensure (text_eq root (codes "resource")) wrong_path
  namespace ← or_fail bad_namespace (urls.path_unescape ns)
  resource_type ← or_fail bad_type (urls.path_unescape kind)
  id ← unescape_id urls rest
  _ ← ensure (not (is_empty namespace)) empty_namespace
  _ ← ensure (not (is_empty resource_type)) empty_type
  ok (record {
    node = node;
    namespace = namespace;
    resource_type = resource_type;
    resource_id = id;
  })
parse_path urls node _ = err wrong_path

unfoldable pub parse_cosi_uri : Urls → Text → Result UriError CosiUri
unfolding parse_path
parse_cosi_uri urls uri = do
  u ← or_fail unreadable_uri (urls.parse_url uri)
  _ ← ensure (text_eq u.scheme (codes "talos")) wrong_scheme
  _ ← ensure (not (is_empty u.hostname)) missing_node
  parse_path urls u.hostname (split (trim_prefix u.path (codes "/")) b'/')
