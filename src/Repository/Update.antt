-- ===== src/Repository/Update.antt =====
-- `update_device_attribute` and `delete_device` of app/db/device_repository.py.
pub mod Laws
use ot_asset_discovery.Prelude.Strings.{strip, split}
use ot_asset_discovery.Repository.{
  max_protocols, DeviceRow, Field, firmware_version, protocols, ip_address, vendor, model,
  device_type, HistoryRow, Store, protocol_limit, not_found, not_tracked, integrity, Result, ok,
  err, has_address, get_device_by_id, record_history,
}
use ot_asset_discovery.Repository.Merging.{joined, with_row}
use ot_asset_discovery.Prelude.{
  ℕ, Bool, true, false, not, ◌&&◌, Option, none, some, List, [], ◌∷◌, ltb, nat_eq, if◌then◌else◌,
  is_some, length, keep_if, any, Eq, ◌==◌, nat_keys, Text, codes, text_keys,
}

abbrev pub field_of : Text → Option Field
field_of name =
    if name == codes "firmware_version"
    then some Field.firmware_version
    else if name == codes "protocols"
    then some Field.protocols
    else if name == codes "ip_address"
    then some Field.ip_address
    else if name == codes "vendor"
    then some Field.vendor
    else if name == codes "model"
    then some Field.model
    else if name == codes "device_type"
    then some Field.device_type
    else none

-- the old value, as the history holds it
abbrev pub shown_value : Field → DeviceRow → Option Text
shown_value Field.firmware_version d = d.firmware_version
shown_value Field.protocols d = joined d.protocols
shown_value Field.ip_address d = some d.ip_address
shown_value Field.vendor d = d.vendor
shown_value Field.model d = d.model
shown_value Field.device_type d = d.device_type

abbrev pub is_empty_text : Text → Bool
is_empty_text [] = true
is_empty_text (c ∷ s) = false

-- `[p.strip() for p in parts if p.strip()]`
pub stripped : List Text → List Text
stripped [] = []
stripped (p ∷ parts) =
    let rest = stripped parts in if is_empty_text (strip p) then rest else strip p ∷ rest

pub listed_protocols : Option Text → List Text
listed_protocols none = []
listed_protocols (some value) = stripped (split b',' value)

-- `setattr`; the columns of the address are not nullable.
pub set_value : Field → Option Text → DeviceRow → Result DeviceRow
set_value Field.firmware_version v d = ok (record d { firmware_version = v })
set_value Field.protocols v d =
    let ps = listed_protocols v in
    if ltb max_protocols (length ps) then err protocol_limit else ok (record d { protocols = ps })
set_value Field.ip_address none d = err integrity
set_value Field.ip_address (some ip) d = ok (record d { ip_address = ip })
set_value Field.vendor v d = ok (record d { vendor = v })
set_value Field.model v d = ok (record d { model = v })
set_value Field.device_type v d = ok (record d { device_type = v })

-- another row holds the address: the unique constraint refuses the flush
abbrev pub address_taken : DeviceRow → List DeviceRow → Bool
address_taken d devices =
    any (λ e. has_address d.mac_address d.ip_address e && not (nat_eq e.id d.id)) devices

abbrev pub commit_update :
    DeviceRow → Field → Option Text → ℕ → Store → Result DeviceRow → Result DeviceRow × Store
commit_update d field v now s (err e) = (err e, s)
commit_update d field v now s (ok d') =
    let d'' : DeviceRow = record d' { updated_at = now } in
    if address_taken d'' s.devices then (err integrity, s) else (
      ok d'',
      with_row (λ e. nat_eq e.id d.id)
          (d'', record_history d.id field (shown_value field d) v now s.history) s,
    )

abbrev pub update_found :
    Option DeviceRow → Option Field → Option Text → ℕ → Store → Result DeviceRow × Store
update_found none field v now s = (err not_found, s)
update_found (some d) none v now s = (err not_tracked, s)
update_found (some d) (some field) v now s = commit_update d field v now s (set_value field v d)

pub update_device_attribute : ℕ → Text → Option Text → ℕ → Store → Result DeviceRow × Store
update_device_attribute id name v now s =
    update_found (get_device_by_id id s) (field_of name) v now s

-- the row and, by the cascade, its history
abbrev pub delete_row : ℕ → List DeviceRow → List DeviceRow
delete_row id devices = keep_if (λ d. not (nat_eq d.id id)) devices

abbrev pub delete_history : ℕ → List HistoryRow → List HistoryRow
delete_history id rows = keep_if (λ h. not (nat_eq h.device_id id)) rows

pub delete_device : ℕ → Store → Bool × Store
delete_device id s =
    if is_some (get_device_by_id id s)
    then (true, record { devices = delete_row id s.devices; history = delete_history id s.history })
    else (false, s)
