-- ===== src/Repository/Merge.antt =====
-- Re-detection, `_merge_device` of app/db/device_repository.py: what it may change of a row.
use mathlib.Core.List.{append-nil}
use ot_asset_discovery.Domain.{DeviceFingerprint, within}
use ot_asset_discovery.Repository.{max_protocols, DeviceRow, HistoryRow, DeviceArgs, or_list}
use ot_asset_discovery.Repository.Merging.{
  Work, fill_vendor, fill_model, fill_firmware, fill_device_type, new_protocols, is_empty,
  merge_protocols, merge_fingerprint, merge_attributes, merge_device,
}
use ot_asset_discovery.Prelude.{
  ℕ, ◌≡◌, refl, inl, inr, Bool, true, not, ◌&&◌, Option, none, some, List, [], ◌∷◌, ◌++◌, arith,
  ltb, if◌then◌else◌, Bool-cases, length, Text,
}

-- A stored value stays; a missing one is filled.
abbrev pub filled {ℓ} : {A : Type ℓ} → Option A → Option A → Option A
filled (some old) new = some old
filled none new = new

-- What the attribute part leaves of a row: last_seen and updated_at are set, the four
-- attributes filled, all else is as it was.
abbrev pub attributes_filled : DeviceArgs → (seen clock : ℕ) → DeviceRow → DeviceRow
attributes_filled a seen clock d = record d {
  last_seen = seen;
  updated_at = clock;
  vendor = filled d.vendor a.vendor;
  model = filled d.model a.model;
  firmware_version = filled d.firmware_version a.firmware_version;
  device_type = filled d.device_type a.device_type;
}

fill_vendor-row :
    (v : Option Text) (now : ℕ) (w : Work)
    → (fill_vendor v now w).0 ≡ record w.0 { vendor = filled w.0.vendor v }
unfolding fill_vendor
fill_vendor-row v now w = ground arith

fill_model-row :
    (v : Option Text) (now : ℕ) (w : Work)
    → (fill_model v now w).0 ≡ record w.0 { model = filled w.0.model v }
unfolding fill_model
fill_model-row v now w = ground arith

fill_firmware-row :
    (v : Option Text) (now : ℕ) (w : Work)
    → (fill_firmware v now w).0 ≡ record w.0 { firmware_version = filled w.0.firmware_version v }
unfolding fill_firmware
fill_firmware-row v now w = ground arith

fill_device_type-row :
    (v : Option Text) (now : ℕ) (w : Work)
    → (fill_device_type v now w).0 ≡ record w.0 { device_type = filled w.0.device_type v }
unfolding fill_device_type
fill_device_type-row v now w = ground arith

merge_attributes-row :
    (a : DeviceArgs) (seen clock : ℕ) (d : DeviceRow) (rows : List HistoryRow)
    → (merge_attributes a seen clock (d, rows)).0 ≡ attributes_filled a seen clock d
unfolding merge_attributes
merge_attributes-row a seen clock d rows =
    let w₀ : Work = (record d { last_seen = seen; updated_at = clock }, rows) in
    let w₁ : Work = fill_vendor a.vendor seen w₀ in
    let w₂ : Work = fill_model a.model seen w₁ in
    let w₃ : Work = fill_firmware a.firmware_version seen w₂ in
    rw (
      fill_device_type-row a.device_type seen w₃,
      fill_firmware-row a.firmware_version seen w₂,
      fill_model-row a.model seen w₁,
      fill_vendor-row a.vendor seen w₀,
    )

-- The protocols after a merge: the stored ones, then the others in the order given.
abbrev pub protocols_merged : Option (List Text) → DeviceRow → List Text
protocols_merged ps d = d.protocols ++ new_protocols d.protocols (or_list ps)

-- Whether the limit is broken.
abbrev pub breaks_limit : Option (List Text) → DeviceRow → Bool
breaks_limit ps d =
    not (is_empty (new_protocols d.protocols (or_list ps)))
    && ltb max_protocols (length (protocols_merged ps d))

pub is_empty-append_nil : (xs ys : List Text) → is_empty ys ≡ true → xs ++ ys ≡ xs
is_empty-append_nil xs [] h = append-nil xs
is_empty-append_nil xs (y ∷ ys) h = cc

merge_protocols-row :
    (ps : Option (List Text)) (now : ℕ) (w : Work)
    → ((merge_protocols ps now w).0 ≡ not (breaks_limit ps w.0))
      × ((merge_protocols ps now w).1.0 ≡ (
          if breaks_limit ps w.0 then w.0 else record w.0 { protocols = protocols_merged ps w.0 }))
unfolding merge_protocols
merge_protocols-row ps now w =
    elim (Bool-cases (is_empty (new_protocols w.0.protocols (or_list ps)))) [
      | inl e ↦ rw e (refl, rw (is_empty-append_nil w.0.protocols _ e))
      | inr e ↦ rw e (elim (Bool-cases (ltb max_protocols (length (protocols_merged ps w.0)))) [
        | inl l ↦ rw l (refl, refl)
        | inr l ↦ rw l (refl, refl)
      ])
    ]

merge_fingerprint-row :
    (f : Option DeviceFingerprint) (d : DeviceRow)
    → merge_fingerprint f d ≡ record d { fingerprint = filled d.fingerprint f }
unfolding merge_fingerprint
merge_fingerprint-row f d = ground arith

-- the last two steps, on a work whose row is known
finish-row :
    (ps : Option (List Text)) (f : Option DeviceFingerprint) (now : ℕ) (w : Work) (e : DeviceRow)
    → w.0 ≡ e
    → let (within, w') = merge_protocols ps now w in
      (within ≡ not (breaks_limit ps e))
      × ((if within then merge_fingerprint f w'.0 else w'.0) ≡ (
          if breaks_limit ps e then e else record e {
            protocols = protocols_merged ps e;
            fingerprint = filled e.fingerprint f;
          }))
finish-row ps f now w e q =
    let r = merge_protocols-row ps now w in
    elim (Bool-cases (breaks_limit ps w.0)) [
      | inl b ↦ rw (← q) (rw (r.0, r.1, b) (refl, refl))
      | inr b ↦ rw (← q) (rw (r.0, r.1, b) (refl, merge_fingerprint-row f _))
    ]

-- A merge fails exactly if there are new protocols and more than 20 in all. It then leaves the
-- protocols and the fingerprint alone; else the new protocols are put behind the stored ones
-- and a missing fingerprint is filled. In both cases a stored vendor, model, firmware version
-- or device type stays, a missing one is filled, last_seen and updated_at are set, and nothing
-- else of the row changes.
pub merge_device_lem :
    (a : DeviceArgs) (seen clock : ℕ) (d : DeviceRow) (rows : List HistoryRow)
    → let merged = protocols_merged a.protocols d in
      let fails =
        not (is_empty (new_protocols d.protocols (or_list a.protocols)))
        && ltb max_protocols (length merged) in
      let (within, (d', rows')) = merge_device a seen clock (d, rows) in
      (within ≡ not fails)
      × (d' ≡ (
          if fails
          then attributes_filled a seen clock d
          else record (attributes_filled a seen clock d) {
            protocols = protocols_merged a.protocols d;
            fingerprint = filled d.fingerprint a.fingerprint;
          }))
unfolding merge_device
merge_device_lem a seen clock d rows =
    finish-row a.protocols a.fingerprint seen (merge_attributes a seen clock (d, rows))
      (attributes_filled a seen clock d) (merge_attributes-row a seen clock d rows)
