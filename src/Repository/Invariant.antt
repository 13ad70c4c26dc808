-- ===== src/Repository/Invariant.antt =====
-- Creating and upserting in app/db/device_repository.py keep the store valid, whether they
-- return or raise.
use ot_asset_discovery.Repository.{
  max_protocols, DeviceRow, HistoryRow, Store, DeviceArgs, has_address, get_device_by_mac_ip,
  get_device_by_id, or_list, or_time, new_row, create_device,
}
use ot_asset_discovery.Repository.Merging.{
  new_protocols, is_empty, merge_device, with_row, upsert_found, upsert_device,
}
use ot_asset_discovery.Repository.Rows.{
  IsValid, All-replace, NoTwins-replace, find-All, NoTwins-append, All-append_one,
}
use ot_asset_discovery.Repository.Limits.{merge_device-Limited}
use ot_asset_discovery.Repository.Merge.{
  protocols_merged, breaks_limit, is_empty-append_nil, merge_device_lem,
}
use ot_asset_discovery.Prelude.{
  ℕ, ◌≤◌, ◌≡◌, inl, inr, false, Option, none, some, List, arith, ltb, Bool-cases, Option-cases,
  length, Text,
}

-- Whether it returns or raises, `create_device` with an id that is not in use keeps the store
-- valid.
pub create_device-IsValid :
    (id now : ℕ) (a : DeviceArgs) (s : Store)
    → get_device_by_id id s ≡ none
    → IsValid s
    → IsValid (create_device id now a s).1
unfolding create_device
create_device-IsValid id now a s fresh h =
    elim (Bool-cases (ltb max_protocols (length (or_list a.protocols)))) [
      | inl e ↦ rw e h
      | inr e ↦ rw e (elim (Option-cases (get_device_by_mac_ip a.mac_address a.ip_address s)) [
        | inr (d, q) ↦ rw q h
        | inl q ↦ rw q (record {
          no_twins = NoTwins-append s.devices (new_row id now a) fresh q h.no_twins;
          protocols_fit =
              All-append_one s.devices (new_row id now a) h.protocols_fit (ground arith);
          history_fits = h.history_fits;
        })
      ])
    ]

unbroken-fit :
    (ps : Option (List Text)) (d : DeviceRow)
    → breaks_limit ps d ≡ false
    → length d.protocols ≤ max_protocols
    → length (protocols_merged ps d) ≤ max_protocols
unbroken-fit ps d b h = elim (Bool-cases (is_empty (new_protocols d.protocols (or_list ps)))) [
  | inl e ↦ rw (is_empty-append_nil d.protocols _ e) h
  | inr e ↦ ground (arith, b, e)
]

protocols_merged-fit :
    (a : DeviceArgs) (seen clock : ℕ) (d : DeviceRow) (rows : List HistoryRow)
    → length d.protocols ≤ max_protocols
    → length (merge_device a seen clock (d, rows)).1.0.protocols ≤ max_protocols
protocols_merged-fit a seen clock d rows h = elim (Bool-cases (breaks_limit a.protocols d)) [
  | inl b ↦ rw ((merge_device_lem a seen clock d rows).1, b) h
  | inr b ↦ rw ((merge_device_lem a seen clock d rows).1, b) (unbroken-fit a.protocols d b h)
]

-- The merged row has the id and the address of the old one.
pub merge_device-keys :
    (a : DeviceArgs) (seen clock : ℕ) (d : DeviceRow) (rows : List HistoryRow)
    → let d' = (merge_device a seen clock (d, rows)).1.0 in
      (d'.id ≡ d.id) × (d'.mac_address ≡ d.mac_address) × (d'.ip_address ≡ d.ip_address)
merge_device-keys a seen clock d rows = rw ((merge_device_lem a seen clock d rows).1) (ground arith)

merged-IsValid :
    (a : DeviceArgs) (seen now : ℕ) (existing : DeviceRow) (s : Store)
    → get_device_by_mac_ip a.mac_address a.ip_address s ≡ some existing
    → IsValid s
    → IsValid (
        with_row
          (has_address a.mac_address a.ip_address)
          (merge_device a seen now (existing, s.history)).1
          s)
merged-IsValid a seen now existing s e h =
    let p = has_address a.mac_address a.ip_address in
    let w = (merge_device a seen now (existing, s.history)).1 in
    let keys = merge_device-keys a seen now existing s.history in
    record {
      no_twins = NoTwins-replace p existing w.0 s.devices keys.0 keys.1 keys.2 e h.no_twins;
      protocols_fit =
          All-replace p existing w.0 s.devices
            (protocols_merged-fit a seen now existing s.history
              (find-All p s.devices existing e h.protocols_fit))
            h.protocols_fit;
      history_fits = merge_device-Limited a seen now (existing, s.history) h.history_fits;
    }

-- Whether it returns or raises, `upsert_device` with an id that is not in use keeps the store
-- valid: no two devices share an id or a MAC and IP address, none has more than 20 protocols,
-- none more than 1000 history rows.
pub upsert_device-IsValid :
    (id now : ℕ) (a : DeviceArgs) (s : Store)
    → get_device_by_id id s ≡ none
    → IsValid s
    → IsValid (upsert_device id now a s).1
unfolding upsert_device upsert_found
upsert_device-IsValid id now a s fresh h =
    elim (Option-cases (get_device_by_mac_ip a.mac_address a.ip_address s)) [
      | inl e ↦ rw e (create_device-IsValid id now (record a { first_seen = none }) s fresh h)
      | inr (existing, e) ↦ rw e (merged-IsValid a (or_time a.last_seen now) now existing s e h)
    ]
