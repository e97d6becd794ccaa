-- ===== src/Device/Store.antt =====
-- internal/core/device/state.go: the identities of devices. The clock's reading, the random IDs and
-- whether a write of the file succeeds are given: `drawn n` is what the n-th call of `newID` returns.
pub mod Resolve
pub mod Ids
pub mod Tracks
pub mod Runtimes
pub mod Durables
pub mod Branches
pub mod Load
pub mod Distinct
use Prim.Native.String.{String, ◌++◌}
use channel_term.Prelude.{
  ℕ, suc, zero, ◌+◌, Bool, true, false, ◌&&◌, ◌||◌, not, Option, none, some, List, [], ◌∷◌,
  if◌then◌else◌, Map, lookup, put, set,
}
use mathlib.Core.List.{◌++◌ as append}
use text.Mathlib.Text.{◌==◌ as str_eq}
use channel_term.Lease.Text.{is_empty, trim_space}

-- `SerialMetadata`, and `StateIdentity`, which has the same fields.
pub record Evidence : Type 0 where
  pub vid : String
  pub pid : String
  pub usb_serial : String
  pub usb_path : String
  pub manufacturer : String
  pub product : String

pub record Endpoint : Type 0 where
  pub transport : String
  pub endpoint : String
  pub metadata : Evidence

-- `IdentityMethod`; `unset` is the empty string of a zero `Identity`.
pub data Method : Type 0 where
  by_usb_serial by_usb_path at_runtime unset : Method

pub record Identity : Type 0 where
  pub device_id : String
  pub method : Method
  pub persistent : Bool

pub record StateDevice : Type 0 where
  pub device_id : String
  pub transport : String
  pub identity : Evidence
  pub last_endpoint : String
  pub created_at : ℕ
  pub updated_at : ℕ

-- `StateStore`, with the devices in the file at `path` and the number of calls of `newID` so far.
pub record Store : Type 0 where
  pub devices : List StateDevice
  pub runtime : Map Identity
  pub file : List StateDevice
  pub draws : ℕ

-- `deviceKey`
abbrev pub device_key : Endpoint → String
device_key e = e.transport ++ "\0" ++ e.endpoint

abbrev pub trimmed : Evidence → Evidence
trimmed e = record {
  vid = trim_space e.vid;
  pid = trim_space e.pid;
  usb_serial = trim_space e.usb_serial;
  usb_path = trim_space e.usb_path;
  manufacturer = trim_space e.manufacturer;
  product = trim_space e.product;
}

-- `persistentEvidence`; the evidence is not used for `at_runtime`.
unfoldable pub persistent_method : Evidence → Method
persistent_method e =
    if not (is_empty e.vid) && not (is_empty e.pid) && not (is_empty e.usb_serial)
    then by_usb_serial
    else (if not (is_empty e.vid)
          && not (is_empty e.pid)
          && is_empty e.usb_serial
          && not (is_empty e.usb_path)
        then by_usb_path
        else at_runtime)

-- The conditions of `matches` on one record.
unfoldable pub is_match : String → Method → Evidence → StateDevice → Bool
is_match transport by_usb_serial e d =
    str_eq d.transport transport
    && not (is_empty d.identity.usb_serial)
    && str_eq d.identity.vid e.vid
    && str_eq d.identity.pid e.pid
    && str_eq d.identity.usb_serial e.usb_serial
is_match transport by_usb_path e d =
    str_eq d.transport transport
    && is_empty d.identity.usb_serial
    && str_eq d.identity.vid e.vid
    && str_eq d.identity.pid e.pid
    && str_eq d.identity.usb_path e.usb_path
is_match transport _ e d = false

-- `matches`, from the index `i` on: each index with its record.
unfoldable pub matches : List StateDevice → ℕ → String → Method → Evidence → List (ℕ × StateDevice)
matches [] i transport method e = []
matches (d ∷ ds) i transport method e =
    let rest = matches ds (suc i) transport method e in
    if is_match transport method e d then (i, d) ∷ rest else rest

abbrev same_evidence : Evidence → Evidence → Bool
same_evidence a b =
    str_eq a.vid b.vid
    && str_eq a.pid b.pid
    && str_eq a.usb_serial b.usb_serial
    && str_eq a.usb_path b.usb_path
    && str_eq a.manufacturer b.manufacturer
    && str_eq a.product b.product

-- `updateStateRecord`: the record, and whether it has changed.
unfoldable pub update_record : StateDevice → Endpoint → Evidence → ℕ → StateDevice × Bool
update_record d e evidence now =
    if same_evidence d.identity evidence && str_eq d.last_endpoint e.endpoint
    then (d, false)
    else (record d { identity = evidence; last_endpoint = e.endpoint; updated_at = now }, true)

unfoldable pub device_has_id : List StateDevice → String → Bool
device_has_id [] id = false
device_has_id (d ∷ ds) id = str_eq d.device_id id || device_has_id ds id

unfoldable pub runtime_has_id : Map Identity → String → Bool
runtime_has_id [] id = false
runtime_has_id ((k, i) ∷ m) id = str_eq i.device_id id || runtime_has_id m id

-- `hasID`
abbrev pub has_id : Store → String → Bool
has_id s id = device_has_id s.devices id || runtime_has_id s.runtime id
