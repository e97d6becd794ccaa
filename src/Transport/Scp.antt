-- ===== src/Transport/Scp.antt =====
-- internal/transport/ssh/scp.go: the path of a remote file in the command line that the remote shell
-- reads; the children have the protocol.
pub mod Names
pub mod Plain
pub mod Records
pub mod Receive
pub mod Contained
pub mod Keeps
pub mod Download
pub mod Upload
pub mod Digits
pub mod Reads
pub mod Admits
pub mod Wire
pub mod Sends
pub mod Trees
pub mod RoundTrip
pub mod Words
mod Tests
use channel_term.Prelude.{
  ℕ, Bool, true, false, ◌||◌, Option, none, some, List, [], ◌∷◌, ◌++◌, ◌==◌, if◌then◌else◌, Bytes,
}

-- `strings.ContainsAny` for NUL, carriage return and newline.
unfoldable pub has_break : Bytes → Bool
has_break [] = false
has_break (c ∷ cs) = (c == 0 || c == 13 || c == 10) || has_break cs

-- The path from the root, or from the directory that the shell is in.
abbrev pub rooted : Bytes → Bytes
rooted [] = b'.' ∷ b'/' ∷ []
rooted (c ∷ cs) = if c == b'/' then c ∷ cs else b'.' ∷ b'/' ∷ c ∷ cs

-- `strings.ReplaceAll` of each single quote: the quoted text ends, a quoted quote follows, and the
-- quoted text goes on.
unfoldable pub replace_quotes : Bytes → Bytes
replace_quotes [] = []
replace_quotes (c ∷ cs) =
    let rest = replace_quotes cs in if c == 39 then 39 ∷ 34 ∷ 39 ∷ 34 ∷ 39 ∷ rest else c ∷ rest

-- `scpPath`; the error is `none`.
unfoldable pub scp_path : Bytes → Option Bytes
scp_path [] = none
scp_path (c ∷ cs) =
    if has_break (c ∷ cs) then none else some (39 ∷ (replace_quotes (rooted (c ∷ cs)) ++ 39 ∷ []))
