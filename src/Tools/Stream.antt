-- ===== src/Tools/Stream.antt =====
-- What the streaming handlers share: the messages of a stream, and the errors that nodes report in it.
use talos_mcp_server.Common.{
  Option, none, some, List, [], ◌∷◌, if◌then◌else◌, Text, codes, is_empty,
}
use talos_mcp_server.Text.{text_eq}

-- What `Recv` returns, one message after another, and how the stream ends: with io.EOF (none) or with
-- another error.
pub record Stream (A : Type 0) : Type 0 where
  pub messages : List A
  pub failure : Option Text

-- A map from nodes to their errors: one entry for a node, the last one.
abbrev pub NodeErrors : Type 0
NodeErrors = List (Text × Text)

unfoldable pub put : Text → Text → NodeErrors → NodeErrors
put node e [] = (node, e) ∷ []
put node e ((n, f) ∷ rest) = if text_eq n node then (n, e) ∷ rest else (n, f) ∷ put node e rest

-- The metadata of a message: the hostname and the error. Without an error there is nothing to note.
unfoldable pub note_error : Option (Text × Text) → NodeErrors → NodeErrors
unfolding put
note_error none errors = errors
note_error (some (host, e)) errors =
    if is_empty e then errors else put (if is_empty host then codes "unknown" else host) e errors
