-- ===== src/Repository/Limits.antt =====
-- The history limit of app/db/device_repository.py is kept by every step of a merge.
use ot_asset_discovery.Repository.{
  max_protocols, Field, HistoryRow, DeviceArgs, or_list, record_history,
}
use ot_asset_discovery.Repository.Merging.{
  Work, fills, fill_vendor, fill_model, fill_firmware, fill_device_type, new_protocols, is_empty,
  merge_protocols, merge_attributes, merge_device,
}
use ot_asset_discovery.Repository.History.{history_count-eq, record_history_rows}
use ot_asset_discovery.Repository.Rows.{Limited}
use ot_asset_discovery.Repository.Merge.{protocols_merged}
use ot_asset_discovery.Prelude.{
  ℕ, ap, inl, inr, Option, List, arith, ltb, nat_eq, nat_eq→eq, Bool-cases, length, Text,
}

pub record_history-Limited :
    (id : ℕ) (field : Field) (old new : Option Text) (now : ℕ) (rows : List HistoryRow)
    → Limited rows
    → Limited (record_history id field old new now rows)
record_history-Limited id field old new now rows h j =
    let r = record_history_rows id field old new now rows j in
    elim (Bool-cases (nat_eq j id)) [
      | inl e ↦ rw (nat_eq→eq j id e) (omega (arith, r.0))
      | inr e ↦ omega (
        arith,
        h j,
        history_count-eq j rows,
        history_count-eq j (record_history id field old new now rows),
        ap (length {A = HistoryRow}) (r.1 e),
      )
    ]

fill_vendor-Limited :
    (v : Option Text) (now : ℕ) (w : Work) → Limited w.1 → Limited (fill_vendor v now w).1
unfolding fill_vendor
fill_vendor-Limited v now w h = elim (Bool-cases (fills w.0.vendor v)) [
  | inl e ↦ rw e (record_history-Limited _ _ _ _ _ w.1 h)
  | inr e ↦ rw e h
]

fill_model-Limited :
    (v : Option Text) (now : ℕ) (w : Work) → Limited w.1 → Limited (fill_model v now w).1
unfolding fill_model
fill_model-Limited v now w h = elim (Bool-cases (fills w.0.model v)) [
  | inl e ↦ rw e (record_history-Limited _ _ _ _ _ w.1 h)
  | inr e ↦ rw e h
]

fill_firmware-Limited :
    (v : Option Text) (now : ℕ) (w : Work) → Limited w.1 → Limited (fill_firmware v now w).1
unfolding fill_firmware
fill_firmware-Limited v now w h = elim (Bool-cases (fills w.0.firmware_version v)) [
  | inl e ↦ rw e (record_history-Limited _ _ _ _ _ w.1 h)
  | inr e ↦ rw e h
]

fill_device_type-Limited :
    (v : Option Text) (now : ℕ) (w : Work) → Limited w.1 → Limited (fill_device_type v now w).1
unfolding fill_device_type
fill_device_type-Limited v now w h = elim (Bool-cases (fills w.0.device_type v)) [
  | inl e ↦ rw e (record_history-Limited _ _ _ _ _ w.1 h)
  | inr e ↦ rw e h
]

merge_protocols-Limited :
    (ps : Option (List Text)) (now : ℕ) (w : Work)
    → Limited w.1
    → Limited (merge_protocols ps now w).1.1
unfolding merge_protocols
merge_protocols-Limited ps now w h =
    elim (Bool-cases (is_empty (new_protocols w.0.protocols (or_list ps)))) [
      | inl e ↦ rw e h
      | inr e ↦ rw e (elim (Bool-cases (ltb max_protocols (length (protocols_merged ps w.0)))) [
        | inl l ↦ rw l h
        | inr l ↦ rw l (record_history-Limited _ _ _ _ _ w.1 h)
      ])
    ]

pub merge_device-Limited :
    (a : DeviceArgs) (seen clock : ℕ) (w : Work)
    → Limited w.1
    → Limited (merge_device a seen clock w).1.1
unfolding merge_device merge_attributes
merge_device-Limited a seen clock w h = merge_protocols-Limited a.protocols seen _ (
    fill_device_type-Limited a.device_type seen _ (
      fill_firmware-Limited a.firmware_version seen _ (
        fill_model-Limited a.model seen _ (
          fill_vendor-Limited a.vendor seen
            (record w.0 { last_seen = seen; updated_at = clock }, w.1) h))))
