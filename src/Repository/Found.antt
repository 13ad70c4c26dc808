-- ===== src/Repository/Found.antt =====
-- What `upsert_device` of app/db/device_repository.py answers: the device that is stored at the
-- address afterwards, and whether it was there before.
use ot_asset_discovery.Repository.{
  max_protocols, DeviceRow, Store, ok, DeviceArgs, has_address, find, get_device_by_mac_ip, or_list,
  or_time, new_row, create_device,
}
use ot_asset_discovery.Repository.Merging.{merge_device, replace, upsert_found, upsert_device}
use ot_asset_discovery.Repository.Rows.{find_sound}
use ot_asset_discovery.Repository.Invariant.{merge_device-keys}
use ot_asset_discovery.Prelude.{
  ℕ, ◌+◌, ◌≡◌, refl, inl, inr, Bool, true, false, not, none, some, List, [], ◌∷◌, ◌++◌, arith, ltb,
  if◌then◌else◌, Bool-cases, Option-cases, is_some, length, length-append, text_eq_iff,
}

find-append :
    (p : DeviceRow → Bool) (devices : List DeviceRow) (d : DeviceRow)
    → find p devices ≡ none
    → p d ≡ true
    → find p (devices ++ d ∷ []) ≡ some d
find-append p [] d h q = rw q
find-append p (e ∷ devices) d h q = ground (arith, find-append p devices d)

find-replace :
    (p : DeviceRow → Bool) (devices : List DeviceRow) (old d : DeviceRow)
    → find p devices ≡ some old
    → p d ≡ true
    → find p (replace p d devices) ≡ some d
find-replace p [] old d h q = cc
find-replace p (e ∷ devices) old d h q = ground (arith, find-replace p devices old d)

length-replace :
    (p : DeviceRow → Bool) (d : DeviceRow) (devices : List DeviceRow)
    → length (replace p d devices) ≡ length devices
length-replace p d [] = refl
length-replace p d (e ∷ devices) = ground (arith, length-replace p d devices)

-- The device is the one found at the address after `upsert_device`; it is new exactly if none was
-- there before; the store has one device more if it is new, and as many as before if not.
abbrev pub Stored : (id now : ℕ) → DeviceArgs → Store → DeviceRow → Bool → Type 0
Stored id now a s d new =
    let s' = (upsert_device id now a s).1 in
    (get_device_by_mac_ip a.mac_address a.ip_address s' ≡ some d)
    × (new ≡ not (is_some (get_device_by_mac_ip a.mac_address a.ip_address s)))
    × (length s'.devices ≡ length s.devices + (if new then 1 else 0))

created-found :
    (id now : ℕ) (a : DeviceArgs) (s : Store) (d : DeviceRow) (new : Bool)
    → get_device_by_mac_ip a.mac_address a.ip_address s ≡ none
    → (upsert_device id now a s).0 ≡ ok (d, new)
    → Stored id now a s d new
unfolding upsert_device upsert_found create_device
created-found id now a s d new e h =
    let new_d = new_row id now (record a { first_seen = none }) in
    let p = has_address a.mac_address a.ip_address in
    elim (Bool-cases (ltb max_protocols (length (or_list a.protocols)))) [
      | inl q ↦ ground (arith, e, q, h)
      | inr q ↦
          let same : d ≡ new_d = ground (arith, e, q, h) in
          let is : new ≡ true = ground (arith, e, q, h) in
          rw (e, q, e, same, is)
            (
              find-append p s.devices new_d e (
                  ground (
                    arith,
                    text_eq_iff a.mac_address a.mac_address,
                    text_eq_iff a.ip_address a.ip_address,
                  )),
              refl,
              length-append s.devices (new_d ∷ []),
            )
    ]

merged-found :
    (id now : ℕ) (a : DeviceArgs) (s : Store) (d : DeviceRow) (new : Bool) (existing : DeviceRow)
    → get_device_by_mac_ip a.mac_address a.ip_address s ≡ some existing
    → (upsert_device id now a s).0 ≡ ok (d, new)
    → Stored id now a s d new
unfolding upsert_device upsert_found create_device
merged-found id now a s d new existing e h =
    let keys = merge_device-keys a (or_time a.last_seen now) now existing s.history in
    let w = (merge_device a (or_time a.last_seen now) now (existing, s.history)).1 in
    let p = has_address a.mac_address a.ip_address in
    let same : d ≡ w.0 = ground (arith, e, h) in
    let is : new ≡ false = ground (arith, e, h) in
    rw (e, same, is)
      (
        find-replace p s.devices existing w.0 e
            (rw (keys.1, keys.2) (find_sound p s.devices existing e)),
        refl,
        ground (arith, length-replace p w.0 s.devices),
      )

-- Where `upsert_device` returns, its device is the one found at the address afterwards; it is
-- new exactly if none was there before; and there is one device more if it is new, and as many
-- as before if not.
pub upsert_device-found :
    (id now : ℕ) (a : DeviceArgs) (s : Store) (d : DeviceRow) (new : Bool)
    → (upsert_device id now a s).0 ≡ ok (d, new)
    → Stored id now a s d new
unfolding upsert_device upsert_found create_device
upsert_device-found id now a s d new h =
    elim (Option-cases (get_device_by_mac_ip a.mac_address a.ip_address s)) [
      | inl e ↦ created-found id now a s d new e h
      | inr (existing, e) ↦ merged-found id now a s d new existing e h
    ]
