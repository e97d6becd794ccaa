-- ===== src/Cli/Interactive.antt =====
-- internal/cli/interactive/controller.go: the local commands of an attached terminal, behind an escape
-- byte.
pub mod Chunks
pub mod Quote
mod Tests
use channel_term.Prelude.{ℕ, Bool, true, false, List, [], ◌∷◌, ◌++◌, ◌==◌, if◌then◌else◌, Bytes}

pub data Action : Type 0 where
  remote : Bytes → Action
  quit help toggle_prompt_timestamp file_transfer escape_pending cancel_escape : Action
  unknown_escape : ℕ → Action

pub record Controller : Type 0 where
  pub escape_byte : ℕ
  pub pending : Bool

-- `NewController`
abbrev pub new_controller : ℕ → Controller
new_controller b = record { escape_byte = b; pending = false }

-- `DefaultEscapeByte`
abbrev pub default_escape_byte : ℕ
default_escape_byte = 0x1d

-- `EscapeByte`
abbrev pub escape_byte : Controller → ℕ
escape_byte c = if c.escape_byte == 0 then default_escape_byte else c.escape_byte

-- The action of the byte after the escape byte.
abbrev pub command : Controller → ℕ → Action
command c value =
    if value == b'q'
    then quit
    else (if value == b'?'
        then help
        else (if value == b't'
            then toggle_prompt_timestamp
            else (if value == b'f'
                then file_transfer
                else (if value == b']'
                    then remote (escape_byte c ∷ [])
                    else (if value == 0x03
                        then remote (value ∷ [])
                        else (if value == 0x1b then cancel_escape else unknown_escape value))))))

-- `flushRemote` of the bytes since `remoteStart`.
abbrev pub flush_remote : Bytes → List Action
flush_remote [] = []
flush_remote (b ∷ bs) = remote (b ∷ bs) ∷ []

abbrev pub set_pending : Controller → Bool → Controller
set_pending c b = record c { pending = b }

abbrev pub emit : List Action → Controller × List Action → Controller × List Action
emit xs (c, bs) = (c, xs ++ bs)

-- The loop of `Process`, with the bytes since `remoteStart`.
unfoldable pub process_from : Controller → Bytes → Bytes → Controller × List Action
process_from c run [] = (c, flush_remote run)
process_from c run (value ∷ rest) =
    let after_command =
      emit (flush_remote run ++ command c value ∷ [])
        (process_from (set_pending c false) [] rest) in
    let after_escape =
      emit (flush_remote run ++ escape_pending ∷ []) (process_from (set_pending c true) [] rest) in
    let after_byte = process_from c (run ++ value ∷ []) rest in
    if c.pending
    then after_command
    else (if value == escape_byte c then after_escape else after_byte)

-- `Process`
abbrev pub process : Controller → Bytes → Controller × List Action
process c bytes = process_from c [] bytes
