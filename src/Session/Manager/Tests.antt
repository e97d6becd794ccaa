-- ===== src/Session/Manager/Tests.antt =====
-- A Manager at work: one serial Session is registered, and another endpoint is being opened.
use Prim.Native.String.{String}
use mathlib.Core.Path.{subst}
use channel_term.Prelude.{
  ◌+◌, ◌*◌, ◌^◌, ◌<◌, ℕ, ◌≡◌, refl, arith, true, false, none, some, [], ◌∷◌, ◌⊎◌, inr, lookup,
  length, put,
}
use channel_term.Session.Lifecycle.{State, opened}
use channel_term.Session.Manager.Names.{
  CaseTables, reference_key, map_text, reference_prefix, digits,
}
use channel_term.Lease.Text.{trim_space, is_empty}
use channel_term.Session.Manager.{
  Outcome, bad, external, reference_of, remove, Session, Metadata, Registered, Manager, new, get,
  register_with_metadata, admit, next_reference, next_free, session_id, with_reference, with_name,
}
use channel_term.Session.Manager.Openings.{
  get_or_create_begin, active_session, select_active, select_info, finish_opening, join, by_opening,
  is_opens,
}
use channel_term.Session.Manager.Steps.{Reach, start, next, registers, begins, finishes}
use channel_term.Session.Manager.Fresh.{counter_of}
use channel_term.Session.Manager.Resolves.{names_resolve, register-resolves}
use channel_term.Session.Manager.Shared.{opening_shared}

abbrev tables : CaseTables
tables = record { to_lower = λ c. c; to_upper = λ c. c }

abbrev board : Session
board = record { id = "a1"; instance_ = 0; managed = true }

abbrev board_metadata : Metadata
board_metadata = record {
  transport = "serial";
  endpoint = "/dev/ttyUSB0";
  label = "";
  reference = "";
}

abbrev named_metadata : Metadata
named_metadata = with_name board_metadata "SER-1"

abbrev one_session : Manager
one_session = record new {
  sessions = ("a1", record { session = board; metadata = named_metadata }) ∷ [];
  next_references = ("serial", 1) ∷ [];
}

registered :
    register_with_metadata tables new board board_metadata ≡ some (one_session, inr named_metadata)
unfolding admit next_reference next_free session_id with_reference lookup put map_text
    reference_prefix reference_key digits trim_space is_empty
registered = refl

abbrev other_metadata : Metadata
other_metadata = record { transport = "ssh"; endpoint = "board:22"; label = ""; reference = "" }

abbrev open_states : ℕ → State
open_states i = opened

abbrev opening_one : Manager
opening_one = record one_session { openings = ("ssh\0board:22", 0) ∷ []; created = 1 }

to_one : Reach tables new one_session
to_one = next start (registers board board_metadata one_session (inr named_metadata) registered)

begun_one : (get_or_create_begin open_states one_session none true other_metadata).0 ≡ opening_one
unfolding get_or_create_begin active_session select_active select_info lookup put is_empty
begun_one = refl

to_opening : Reach tables new opening_one
to_opening =
    subst (Reach tables new) begun_one (next to_one (begins open_states none true other_metadata))

abbrev refused_outcome : Outcome
refused_outcome = bad (external 7)

to_ended : Reach tables opening_one (finish_opening opening_one "ssh\0board:22" 0 refused_outcome)
unfolding lookup
to_ended = next start (finishes "ssh\0board:22" 0 refused_outcome refl)

found_board :
    lookup one_session.sessions "a1" ≡ some (record { session = board; metadata = named_metadata })
unfolding lookup
found_board = refl

names_resolve_example :
    (board.id ≡ "a1")
    × (get one_session "a1" ≡ some board)
    × (reference_of one_session "a1" ≡ some "SER-1")
    × ((remove one_session "a1").1 ≡ some board)
    × (lookup (remove one_session "a1").0.sessions "a1" ≡ none)
    × ((get one_session "SER-1" ≡ some board)
        ⊎ ((s : Registered) × (lookup one_session.sessions "SER-1" ≡ some s)))
names_resolve_example =
    names_resolve tables one_session "a1" (record { session = board; metadata = named_metadata })
      to_one found_board

abbrev second : Session
second = record { id = "b2"; instance_ = 1; managed = true }

free_second : lookup one_session.sessions "b2" ≡ none
unfolding lookup
free_second = refl

room : counter_of tables one_session "serial" + 2 * length one_session.sessions + 1 < 2 ^ 64
unfolding lookup reference_key map_text trim_space is_empty
room = omega arith

register-resolves_example :
    (m' : Manager) × (name : String) × (register_with_metadata tables one_session second
        board_metadata
      ≡ some (m', inr (with_name board_metadata name)))
    × (get one_session name ≡ none)
    × (get m' "b2" ≡ some second)
    × (get m' name ≡ some second)
register-resolves_example =
    register-resolves tables one_session second board_metadata refl free_second room

at_opening : lookup opening_one.openings "ssh\0board:22" ≡ some 0
unfolding lookup
at_opening = refl

opening_shared_example :
    ((join opening_one 0 by_opening ≡ none)
      × (is_opens (get_or_create_begin open_states opening_one none true other_metadata).1 ≡ false))
    ⊎ ((o : Outcome) × (join opening_one 0 by_opening ≡ some o)
        × (join (finish_opening opening_one "ssh\0board:22" 0 refused_outcome) 0 by_opening
            ≡ some o))
opening_shared_example =
    opening_shared tables opening_one opening_one
      (finish_opening opening_one "ssh\0board:22" 0 refused_outcome) other_metadata 0 open_states
      none true to_opening at_opening start to_ended
