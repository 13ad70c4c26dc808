-- ===== src/Repository/Merging.antt =====
-- `_merge_device` and `upsert_device` of app/db/device_repository.py: what a device that is seen
-- again keeps and gains.
use ot_asset_discovery.Domain.{DeviceFingerprint, within}
use ot_asset_discovery.Repository.{
  max_protocols, DeviceRow, Field, HistoryRow, Store, protocol_limit, Result, ok, err, DeviceArgs,
  has_address, get_device_by_mac_ip, or_list, or_time, create_device, record_history,
}
use ot_asset_discovery.Prelude.Strings.{join}
use ot_asset_discovery.Prelude.{
  ℕ, Bool, true, false, not, ◌&&◌, Option, none, some, List, [], ◌∷◌, ◌++◌, ltb, if◌then◌else◌,
  is_some, length, keep_if, nat_keys, Text, codes, text_keys, contains,
}

-- The row that a merge works on, with the history.
abbrev pub Work : Type 0
Work = DeviceRow × List HistoryRow

-- `if device.vendor is None and vendor is not None`, and so for the other attributes
abbrev pub fills : Option Text → Option Text → Bool
fills old new = not (is_some old) && is_some new

unfoldable pub fill_vendor : Option Text → ℕ → Work → Work
fill_vendor v now (d, rows) =
    if fills d.vendor v
    then (record d { vendor = v }, record_history d.id Field.vendor d.vendor v now rows)
    else (d, rows)

unfoldable pub fill_model : Option Text → ℕ → Work → Work
fill_model v now (d, rows) =
    if fills d.model v
    then (record d { model = v }, record_history d.id Field.model d.model v now rows)
    else (d, rows)

unfoldable pub fill_firmware : Option Text → ℕ → Work → Work
fill_firmware v now (d, rows) =
    if fills d.firmware_version v
    then (
      record d { firmware_version = v },
      record_history d.id Field.firmware_version d.firmware_version v now rows,
    )
    else (d, rows)

unfoldable pub fill_device_type : Option Text → ℕ → Work → Work
fill_device_type v now (d, rows) =
    if fills d.device_type v
    then (
      record d { device_type = v },
      record_history d.id Field.device_type d.device_type v now rows,
    )
    else (d, rows)

-- `[p for p in protocols if p not in current_protocols]`
abbrev pub new_protocols : List Text → List Text → List Text
new_protocols current ps = keep_if (λ p. not (contains p current)) ps

-- `",".join(current) if current else None`
unfoldable pub joined : List Text → Option Text
joined [] = none
joined (p ∷ ps) = some (join (codes ",") (p ∷ ps))

abbrev pub is_empty : List Text → Bool
is_empty [] = true
is_empty (p ∷ ps) = false

-- whether the limit was kept, and the work after it; on an error the work stays as it was
unfoldable pub merge_protocols : Option (List Text) → ℕ → Work → Bool × Work
merge_protocols ps now (d, rows) =
    let fresh = new_protocols d.protocols (or_list ps) in
    if is_empty fresh
    then (true, (d, rows))
    else if ltb max_protocols (length (d.protocols ++ fresh))
    then (false, (d, rows))
    else (
      true,
      (
        record d { protocols = d.protocols ++ fresh },
        record_history d.id Field.protocols (joined d.protocols)
            (some (join (codes ",") (d.protocols ++ fresh))) now rows,
      ),
    )

unfoldable pub merge_fingerprint : Option DeviceFingerprint → DeviceRow → DeviceRow
merge_fingerprint f d =
    if not (is_some d.fingerprint) && is_some f then record d { fingerprint = f } else d

-- the attribute part of `_merge_device`
unfoldable pub merge_attributes : DeviceArgs → (seen clock : ℕ) → Work → Work
merge_attributes a seen clock (d, rows) = fill_device_type a.device_type seen (
    fill_firmware a.firmware_version seen (
      fill_model a.model seen
        (fill_vendor a.vendor seen (record d { last_seen = seen; updated_at = clock }, rows))))

unfoldable pub merge_device : DeviceArgs → (seen clock : ℕ) → Work → Bool × Work
merge_device a seen clock w =
    let (within, (d, rows)) = merge_protocols a.protocols seen (merge_attributes a seen clock w) in
    (within, (if within then merge_fingerprint a.fingerprint d else d, rows))

-- The row that `find` finds is changed in place: a session has one object for each row.
abbrev pub replace : (DeviceRow → Bool) → DeviceRow → List DeviceRow → List DeviceRow
replace p d [] = []
replace p d (e ∷ devices) = let rest = replace p d devices in if p e then d ∷ devices else e ∷ rest

abbrev pub with_row : (DeviceRow → Bool) → Work → Store → Store
with_row p (d, rows) s = record { devices = replace p d s.devices; history = rows }

-- The result says whether the device is new.
abbrev pub is_new : Result DeviceRow → Result (DeviceRow × Bool)
is_new (ok d) = ok (d, true)
is_new (err e) = err e

-- a device that is not stored, or one that is
unfoldable pub upsert_found :
    Option DeviceRow → (id now : ℕ) → DeviceArgs → Store → Result (DeviceRow × Bool) × Store
upsert_found none id now a s =
    let (r, s') = create_device id now (record a { first_seen = none }) s in (is_new r, s')
upsert_found (some existing) id now a s =
    let (within, w) = merge_device a (or_time a.last_seen now) now (existing, s.history) in
    (
      if within then ok (w.0, false) else err protocol_limit,
      with_row (has_address a.mac_address a.ip_address) w s,
    )

unfoldable pub upsert_device : (id now : ℕ) → DeviceArgs → Store → Result (DeviceRow × Bool) × Store
upsert_device id now a s =
    upsert_found (get_device_by_mac_ip a.mac_address a.ip_address s) id now a s
