-- ===== src/Repository/Update/Laws.antt =====
-- `update_device_attribute` and `delete_device` of app/db/device_repository.py keep the store
-- valid, and a protocol list survives its text form.
use ot_asset_discovery.Prelude.Strings.{strip, Free, split-join}
use ot_asset_discovery.Repository.{
  max_protocols, DeviceRow, Field, HistoryRow, Store, Result, ok, err, has_address, find,
  get_device_by_id, history_count,
}
use ot_asset_discovery.Repository.Merging.{joined}
use ot_asset_discovery.Repository.Rows.{NoTwins, IsValid, All-replace, find-All, NoTwins-readdress}
use ot_asset_discovery.Repository.Limits.{record_history-Limited}
use ot_asset_discovery.Repository.Update.{
  field_of, is_empty_text, stripped, listed_protocols, set_value, address_taken, commit_update,
  update_found, update_device_attribute, delete_row, delete_history, delete_device,
}
use ot_asset_discovery.Prelude.{
  ℕ, ◌≤◌, ◌≡◌, refl, inl, inr, Bool, false, ◌&&◌, Option, none, some, List, [], ◌∷◌, arith, nat_eq,
  if◌then◌else◌, Bool-cases, Option-cases, is_some, length, keep_if, any, All, Text,
}

set_value-kept :
    (field : Field) (v : Option Text) (d d' : DeviceRow)
    → set_value field v d ≡ ok d'
    → length d.protocols ≤ max_protocols
    → (d'.id ≡ d.id) × (length d'.protocols ≤ max_protocols)
unfolding set_value
set_value-kept Field.firmware_version v d d' h fit = ground arith
set_value-kept Field.protocols v d d' h fit = ground arith
set_value-kept Field.ip_address none d d' h fit = cc
set_value-kept Field.ip_address (some ip) d d' h fit = ground arith
set_value-kept Field.vendor v d d' h fit = ground arith
set_value-kept Field.model v d d' h fit = ground arith
set_value-kept Field.device_type v d d' h fit = ground arith

commit_update-IsValid :
    (d : DeviceRow) (field : Field) (v : Option Text) (now : ℕ) (s : Store) (r : Result DeviceRow)
    → set_value field v d ≡ r
    → length d.protocols ≤ max_protocols
    → IsValid s
    → IsValid (commit_update d field v now s r).1
commit_update-IsValid d field v now s (err e) q fit h = h
commit_update-IsValid d field v now s (ok d') q fit h =
    let kept = set_value-kept field v d d' q fit in
    let d'' : DeviceRow = record d' { updated_at = now } in
    elim (Bool-cases (address_taken d'' s.devices)) [
      | inl t ↦ rw t h
      | inr free ↦ rw free (record {
        no_twins = rw (← kept.0) (NoTwins-readdress d'' s.devices free h.no_twins);
        protocols_fit = All-replace (λ e. nat_eq e.id d.id) d d'' s.devices kept.1 h.protocols_fit;
        history_fits = record_history-Limited _ _ _ _ _ s.history h.history_fits;
      })
    ]

-- Whether it returns or raises, `update_device_attribute` keeps the store valid; in
-- particular no device moves to the address of another.
pub update_device_attribute-IsValid :
    (id : ℕ) (name : Text) (v : Option Text) (now : ℕ) (s : Store)
    → IsValid s
    → IsValid (update_device_attribute id name v now s).1
unfolding update_device_attribute
update_device_attribute-IsValid id name v now s h = elim (Option-cases (get_device_by_id id s)) [
  | inl e ↦ rw e h
  | inr (d, e) ↦ rw e (at_field d e (field_of name))
]
  where
    at_field :
        (d : DeviceRow)
        → get_device_by_id id s ≡ some d
        → (o : Option Field) → IsValid (update_found (some d) o v now s).1
    at_field d e none = h
    at_field d e (some field) =
        commit_update-IsValid d field v now s (set_value field v d) refl
          (find-All (λ x. nat_eq x.id id) s.devices d e h.protocols_fit) h

any-keep_if :
    (p q : DeviceRow → Bool) (devices : List DeviceRow)
    → any q devices ≡ false
    → any q (keep_if p devices) ≡ false
any-keep_if p q [] h = refl
any-keep_if p q (d ∷ devices) h = ground (arith, any-keep_if p q devices)

NoTwins-keep_if :
    (p : DeviceRow → Bool) (devices : List DeviceRow)
    → NoTwins devices
    → NoTwins (keep_if p devices)
NoTwins-keep_if p [] h = tt
NoTwins-keep_if p (d ∷ devices) h = elim (Bool-cases (p d)) [
  | inl e ↦ rw e (
    any-keep_if p (λ x. nat_eq x.id d.id) devices h.0,
    any-keep_if p (has_address d.mac_address d.ip_address) devices h.1,
    NoTwins-keep_if p devices h.2,
  )
  | inr e ↦ rw e (NoTwins-keep_if p devices h.2)
]

All-keep_if :
    (p : DeviceRow → Bool) (devices : List DeviceRow)
    → All (λ d. length d.protocols ≤ max_protocols) devices
    → All (λ d. length d.protocols ≤ max_protocols) (keep_if p devices)
All-keep_if p [] h = tt
All-keep_if p (d ∷ devices) h = elim (Bool-cases (p d)) [
  | inl e ↦ rw e (h.0, All-keep_if p devices h.1)
  | inr e ↦ rw e (All-keep_if p devices h.1)
]

history_count-delete_history :
    (id j : ℕ) (rows : List HistoryRow)
    → history_count j (delete_history id rows) ≡ (if nat_eq j id then 0 else history_count j rows)
history_count-delete_history id j [] = ground arith
history_count-delete_history id j (h ∷ rows) =
    ground (arith, history_count-delete_history id j rows)

find-delete_row :
    (id : ℕ) (devices : List DeviceRow) → find (λ d. nat_eq d.id id) (delete_row id devices) ≡ none
find-delete_row id [] = refl
find-delete_row id (d ∷ devices) = ground (arith, find-delete_row id devices)

-- Deleting keeps the store valid and answers whether the device was there; afterwards the
-- device is not found and, if it was there, has no history left, while every other device has
-- as many history rows as before.
pub delete_device_lem :
    (id j : ℕ) (s : Store)
    → IsValid s
    → let (deleted, s') = delete_device id s in
      IsValid s'
      × (deleted ≡ is_some (get_device_by_id id s))
      × (get_device_by_id id s' ≡ none)
      × (history_count j s'.history
          ≡ (if nat_eq j id && deleted then 0 else history_count j s.history))
unfolding delete_device
delete_device_lem id j s h = elim (Option-cases (get_device_by_id id s)) [
  | inl e ↦ rw e (h, refl, e, ground arith)
  | inr (d, e) ↦ rw e (
    record {
      no_twins = NoTwins-keep_if _ s.devices h.no_twins;
      protocols_fit = All-keep_if _ s.devices h.protocols_fit;
      history_fits =
          λ k. ground (arith, history_count-delete_history id k s.history, h.history_fits k);
    },
    refl,
    find-delete_row id s.devices,
    ground (arith, history_count-delete_history id j s.history),
  )
]

-- A protocol name that a comma-separated list can hold: not empty, no comma, no space around.
abbrev pub IsClean : Text → Type 0
IsClean p = (is_empty_text p ≡ false) × Free b',' p × (strip p ≡ p)

stripped-clean : (ps : List Text) → All IsClean ps → stripped ps ≡ ps
unfolding stripped
stripped-clean [] h = refl
stripped-clean (p ∷ ps) h = rw (h.0.2, h.0.0, stripped-clean ps h.1)

clean-Free : (ps : List Text) → All IsClean ps → All (Free b',') ps
clean-Free [] h = tt
clean-Free (p ∷ ps) h = (h.0.1, clean-Free ps h.1)

-- The text by which the history shows a list of clean protocol names, given back to
-- `update_device_attribute`, stands for the same list.
pub listed_protocols-joined : (ps : List Text) → All IsClean ps → listed_protocols (joined ps) ≡ ps
unfolding listed_protocols joined
listed_protocols-joined [] h = refl
listed_protocols-joined (p ∷ ps) h =
    rw (split-join b',' p ps (clean-Free (p ∷ ps) h)) (stripped-clean (p ∷ ps) h)
