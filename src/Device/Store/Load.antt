-- ===== src/Device/Store/Load.antt =====
-- internal/core/device/state.go: `load` and `validateStateFile`.
use Prim.Native.String.{String}
use channel_term.Prelude.{
  ℕ, Bool, true, false, ◌&&◌, ◌||◌, Option, none, some, List, [], ◌∷◌, ◌==◌, if◌then◌else◌,
}
use channel_term.Lease.Text.{is_empty, trim_space}
use channel_term.Device.Store.{StateDevice, Store}
use channel_term.Device.Store.Resolve.{is_used}

-- What is found at the path: no file, no readable file, no JSON of the schema, or a version and its
-- records.
pub data Found : Type 0 where
  absent unreadable malformed : Found
  versioned : ℕ → List StateDevice → Found

-- The checks of one record, but for its ID being new.
abbrev is_complete : StateDevice → Bool
is_complete d =
    if is_empty (trim_space d.device_id) || is_empty (trim_space d.transport)
    then false
    else (if is_empty d.identity.vid
          || is_empty d.identity.pid
          || (is_empty d.identity.usb_serial && is_empty d.identity.usb_path)
        then false
        else true)

-- `validateStateFile`, with the IDs `seen` so far.
unfoldable pub validate : List String → List StateDevice → Bool
validate seen [] = true
validate seen (d ∷ ds) =
    let rest = validate (d.device_id ∷ seen) ds in
    if is_complete d then (if is_used seen d.device_id then false else rest) else false

abbrev loaded : List StateDevice → Store
loaded ds = record { devices = ds; runtime = []; file = ds; draws = 0 }

-- `LoadStateStore`; an error is `none`. A missing file is created, if the write succeeds.
unfoldable pub load : Found → Bool → Option Store
load absent saves = if saves then some (loaded []) else none
load unreadable saves = none
load malformed saves = none
load (versioned version ds) saves =
    if version == 1 then (if validate [] ds then some (loaded ds) else none) else none
