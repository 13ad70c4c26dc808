-- ===== src/Repository/Tests.antt =====
-- The device repository at a store of two devices.
use ot_asset_discovery.Domain.{within}
use ot_asset_discovery.Repository.{
  max_protocols, max_history, DeviceRow, Field, HistoryRow, Store, ok, DeviceArgs, or_list,
  history_count, enforce_history_limit, record_history,
}
use ot_asset_discovery.Repository.Merging.{
  fill_vendor, fill_model, fill_firmware, fill_device_type, new_protocols, is_empty,
  merge_protocols, merge_fingerprint, merge_attributes, merge_device, upsert_found, upsert_device,
}
use ot_asset_discovery.Repository.Merge.{
  filled, attributes_filled, protocols_merged, merge_device_lem,
}
use ot_asset_discovery.Repository.Rows.{IsValid}
use ot_asset_discovery.Repository.Invariant.{upsert_device-IsValid}
use ot_asset_discovery.Repository.Update.{update_device_attribute}
use ot_asset_discovery.Repository.Update.Laws.{update_device_attribute-IsValid, IsClean}
use ot_asset_discovery.Repository.Found.{Stored, upsert_device-found}
use ot_asset_discovery.Prelude.{
  ℕ, ◌≤◌, ◌≡◌, refl, false, not, ◌&&◌, none, some, List, [], ◌∷◌, arith, ltb, if◌then◌else◌, length,
  All, Text, codes,
}
use ot_asset_discovery.Prelude.Strings.{strip}

abbrev bare : (id : ℕ) → (mac ip : Text) → DeviceRow
bare id mac ip = record {
  id = id;
  mac_address = mac;
  ip_address = ip;
  vendor = none;
  model = none;
  firmware_version = some (codes "1.0");
  device_type = none;
  protocols = codes "modbus_tcp" ∷ [];
  risk_score = 0;
  fingerprint = none;
  first_seen = 10;
  last_seen = 10;
  created_at = 10;
  updated_at = 10;
}

abbrev pump : DeviceRow
pump = bare 1 (codes "aa") (codes "10.0.0.1")

abbrev valve : DeviceRow
valve = bare 2 (codes "bb") (codes "10.0.0.2")

abbrev seen_change : HistoryRow
seen_change = record {
  device_id = 1;
  field_name = Field.firmware_version;
  old_value = none;
  new_value = some (codes "1.0");
  changed_at = 11;
}

abbrev plant : Store
plant = record { devices = pump ∷ valve ∷ []; history = seen_change ∷ [] }

plant-history : (id : ℕ) → history_count id plant.history ≤ max_history
plant-history id = ground arith

plant-IsValid : IsValid plant
plant-IsValid = record {
  no_twins = (refl, refl, (refl, refl, tt));
  protocols_fit = (ground arith, (ground arith, tt));
  history_fits = plant-history;
}

-- the pump answers with a vendor and a second protocol
abbrev sighting : DeviceArgs
sighting = record {
  mac_address = codes "aa";
  ip_address = codes "10.0.0.1";
  vendor = some (codes "Acme");
  model = none;
  firmware_version = some (codes "2.0");
  device_type = none;
  protocols = some (codes "dnp3" ∷ codes "modbus_tcp" ∷ []);
  fingerprint = none;
  first_seen = none;
  last_seen = some 20;
}

upsert_device-IsValid_example : IsValid (upsert_device 3 20 sighting plant).1
upsert_device-IsValid_example = upsert_device-IsValid 3 20 sighting plant refl plant-IsValid

update_device_attribute-IsValid_example :
    IsValid (update_device_attribute 1 (codes "ip_address") (some (codes "10.0.0.2")) 20 plant).1
update_device_attribute-IsValid_example =
    update_device_attribute-IsValid 1 (codes "ip_address") (some (codes "10.0.0.2")) 20 plant
      plant-IsValid

abbrev merged_pump : DeviceRow
merged_pump = record pump {
  vendor = some (codes "Acme");
  protocols = codes "modbus_tcp" ∷ codes "dnp3" ∷ [];
  last_seen = 20;
  updated_at = 20;
}

sighting-merged : (upsert_device 3 20 sighting plant).0 ≡ ok (merged_pump, false)
unfolding upsert_device upsert_found merge_device merge_attributes merge_protocols merge_fingerprint
    fill_vendor fill_model fill_firmware fill_device_type record_history enforce_history_limit
sighting-merged = refl

upsert_device-found_example : Stored 3 20 sighting plant merged_pump false
upsert_device-found_example =
    upsert_device-found 3 20 sighting plant merged_pump false sighting-merged

abbrev two_protocols : List Text
two_protocols = codes "s7comm" ∷ codes "dnp3" ∷ []

two_protocols-IsClean : All IsClean two_protocols
unfolding strip
two_protocols-IsClean = (
  (refl, (refl, (refl, (refl, (refl, (refl, (refl, tt)))))), refl),
  ((refl, (refl, (refl, (refl, (refl, tt)))), refl), tt),
)

merge_device_lem_example :
    let merged = protocols_merged sighting.protocols pump in
    let fails =
      not (is_empty (new_protocols pump.protocols (or_list sighting.protocols)))
      && ltb max_protocols (length merged) in
    let (within, (d', rows')) = merge_device sighting 20 21 (pump, []) in
    (within ≡ not fails)
    × (d' ≡ (
        if fails
        then attributes_filled sighting 20 21 pump
        else record (attributes_filled sighting 20 21 pump) {
          protocols = protocols_merged sighting.protocols pump;
          fingerprint = filled pump.fingerprint sighting.fingerprint;
        }))
merge_device_lem_example = merge_device_lem sighting 20 21 pump []
