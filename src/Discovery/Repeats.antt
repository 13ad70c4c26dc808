-- ===== src/Discovery/Repeats.antt =====
-- A device of which app/discovery_engine.py has stored a fingerprint is known from then on.
use ot_asset_discovery.Prelude.{
  ℕ, ◌≡◌, refl, sym, ap, subst, ◌∙◌, inl, inr, Bool, true, false, not, ◌&&◌, Option, none, some,
  List, [], ◌∷◌, arith, if◌then◌else◌, Bool-cases, Option-cases, is_some, Text,
}
use ot_asset_discovery.Discovery.{
  Draws, Engine, Signal, mac_of, ip_of, find_device, existing_device, args_of, detections, upsert,
  after_detection, discover, is_text, handle_passive_discovery,
}
use ot_asset_discovery.Discovery.Inventory.{unscored, inventory, recalculate-Keeps, record_if-Keeps}
use ot_asset_discovery.Discovery.Alerts.{new_devices, handle_passive-announced}
use ot_asset_discovery.Repository.{
  DeviceRow, HistoryRow, Store, ok, has_address, find, get_device_by_mac_ip,
}
use ot_asset_discovery.Repository.Merging.{upsert_device}
use ot_asset_discovery.Repository.Found.{upsert_device-found}
use ot_asset_discovery.Detection.{Called, process_fingerprint}
use ot_asset_discovery.Detection.Wired.{IsWired, process_fingerprint-Detects}
use ot_asset_discovery.Domain.{DeviceFingerprint}

find-unscored :
    (mac ip : Text) (devices : List DeviceRow)
    → is_some (find (has_address mac ip) devices)
      ≡ is_some (find (has_address mac ip) (unscored devices))
find-unscored mac ip [] = refl
find-unscored mac ip (d ∷ devices) = elim (Bool-cases (has_address mac ip d)) [
  | inl e ↦ rw e refl
  | inr e ↦ rw e (find-unscored mac ip devices)
]

-- Whether a device of an inventory has the address.
abbrev listed : Text → Text → Option (List DeviceRow × List HistoryRow) → Bool
listed mac ip none = false
listed mac ip (some (devices, history)) = is_some (find (has_address mac ip) devices)

find_device-listed :
    (f : DeviceFingerprint) (store : Option Store)
    → is_some (find_device f store) ≡ listed (mac_of f) (ip_of f) (inventory store)
find_device-listed f none = refl
find_device-listed f (some s) = find-unscored (mac_of f) (ip_of f) s.devices

-- The count from what was stored before, and from what the repository answers.
either_count :
    (o : Option DeviceRow)
    → ◌≡◌ {A = ℕ} (if is_some o then 0 else 1) (if not (is_some o) then 1 else 0)
either_count none = refl
either_count (some d) = refl

module _ (w : Draws) (f : DeviceFingerprint) (e : Engine) (s : Store) (d : DeviceRow) (new : Bool)
    (stored : e.store ≡ some s)
    (returns : (upsert_device w.device_id w.now (args_of f) s).0 ≡ ok (d, new)) where
  upsert-Keeps :
      (e' : Engine) (signals : List Signal)
      → (inventory (upsert w f e' signals (some s)).engine.store
          ≡ inventory (some (upsert_device w.device_id w.now (args_of f) s).1))
        × ((upsert w f e' signals (some s)).engine.detector ≡ e'.detector)
  upsert-Keeps e' signals =
      let s' = (upsert_device w.device_id w.now (args_of f) s).1 in
      rw returns (
        recalculate-Keeps w.score_id w.score_now d.id (some s') (record e' { store = some s' })
          refl)

  after_detection-Keeps :
      (called : Called)
      → is_some called.alerts ≡ true
      → (inventory (after_detection w f e called).engine.store
          ≡ inventory (some (upsert_device w.device_id w.now (args_of f) s).1))
        × ((after_detection w f e called).engine.detector ≡ called.state)
  after_detection-Keeps called h = elim (Option-cases called.alerts) [
    | inl q ↦ ground (arith, q, h)
    | inr (alerts, q) ↦
        rw (q, stored)
          (upsert-Keeps (record e { detector = called.state }) (detections called.events))
  ]

  -- After the call the inventory is the one that `upsert_device` left, but for the scores.
  handle_passive-stored :
      IsWired e.detector
      → (inventory (handle_passive_discovery w f e).0.store
          ≡ inventory (some (upsert_device w.device_id w.now (args_of f) s).1))
        × IsWired (handle_passive_discovery w f e).0.detector
  unfolding handle_passive_discovery discover
  handle_passive-stored h =
      let found = existing_device (find_device f e.store) in
      let called = process_fingerprint w.supply f found e.detector in
      let detects = process_fingerprint-Detects w.supply f found e.detector h in
      let first = after_detection-Keeps called detects.0 in
      let p = discover w f e in
      let kept =
        record_if-Keeps (is_some (find_device f e.store) && is_text f.destination_address) w f p
          p.device in
      (kept.0 ∙ first.0, subst IsWired (sym (kept.1 ∙ first.1)) detects.1)

  -- Let the detector of an engine be wired to its two handlers alone, and let `upsert_device`
  -- return for a fingerprint. Passive discovery gives the broadcast one alert of a new device for
  -- it if the repository says that the device is new, and none if not. A second fingerprint with
  -- the same addresses that is handled next gives none.
  pub handle_passive-repeated :
      (v : Draws) (g : DeviceFingerprint)
      → IsWired e.detector
      → mac_of g ≡ mac_of f
      → ip_of g ≡ ip_of f
      → (new_devices (handle_passive_discovery w f e).1 ≡ (if new then 1 else 0))
        × (new_devices (handle_passive_discovery v g (handle_passive_discovery w f e).0).1 ≡ 0)
  handle_passive-repeated v g h m i =
      let answer = upsert_device-found w.device_id w.now (args_of f) s d new returns in
      let next = (handle_passive_discovery w f e).0 in
      let after = handle_passive-stored h in
      let known : is_some (find_device g next.store) ≡ true =
        find_device-listed g next.store
        ∙ rw (after.0, m, i)
            (sym (
                find-unscored (mac_of f) (ip_of f)
                  (upsert_device w.device_id w.now (args_of f) s).1.devices)
              ∙ ap is_some answer.0) in
      (
        handle_passive-announced w f e h
            ∙ rw (stored, answer.1) (either_count (get_device_by_mac_ip (mac_of f) (ip_of f) s)),
        handle_passive-announced v g next after.1 ∙ rw known refl,
      )
