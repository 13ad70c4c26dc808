-- ===== src/Detection/Disappearance.antt =====
-- The disappearance check of app/detection/change_detector.py: who is alerted, and that nobody
-- is alerted twice for one disappearance.
use ot_asset_discovery.Domain.{Alert}
use ot_asset_discovery.Detection.{
  Supply, ChangeDetector, ExistingDevice, create_disappeared_alert, Called, finish, is_overdue,
  scan_devices, check_disappeared_devices,
}
use ot_asset_discovery.Prelude.{
  ℕ, ◌+◌, ◌≡◌, sym, ap, inl, inr, Bool, true, false, not, ◌&&◌, ◌||◌, none, some, List, [], ◌∷◌,
  arith, nat_eq, nat_eq→eq, Bool-cases, nat_keys, text_keys, contains, Distinct, set_add,
  contains-set_add,
}

-- The ids that the alerts are about.
abbrev pub subjects : List Alert → List ℕ
subjects [] = []
subjects (a ∷ alerts) = elim a.device_id [ none ↦ subjects alerts | some id ↦ id ∷ subjects alerts ]

-- Some entry for the id has not been seen for longer than the timeout.
abbrev pub overdue_entry : ChangeDetector → ℕ → ℕ → List ExistingDevice → Bool
overdue_entry d now id [] = false
overdue_entry d now id (device ∷ devices) =
    (nat_eq id device.id && is_overdue d now device) || overdue_entry d now id devices

module _ (s : Supply) (d : ChangeDetector) (now : ℕ) where
  scan_devices-ids :
      (k : ℕ) (devices : List ExistingDevice) (ids : List ℕ) (id : ℕ)
      → contains id (scan_devices s k d now devices ids).0
        ≡ (contains id ids || overdue_entry d now id devices)
  unfolding scan_devices
  scan_devices-ids k [] ids id = ground arith
  scan_devices-ids k (device ∷ devices) ids id =
      elim (Bool-cases (is_overdue d now device && not (contains device.id ids))) [
        | inl e ↦
            rw (e, scan_devices-ids (k + 1) devices (set_add device.id ids) id)
              (rw (contains-set_add device.id id ids) (ground arith))
        | inr e ↦ rw (e, scan_devices-ids k devices ids id) (ground (arith, same_id))
      ]
    where
      same_id : nat_eq id device.id ≡ true → contains device.id ids ≡ contains id ids
      same_id e = ap (λ i. contains i ids) (sym (nat_eq→eq id device.id e))

  pub scan_devices-subjects :
      (k : ℕ) (devices : List ExistingDevice) (ids : List ℕ) (id : ℕ)
      → contains id (subjects (scan_devices s k d now devices ids).1)
        ≡ (not (contains id ids) && overdue_entry d now id devices)
  unfolding scan_devices create_disappeared_alert
  scan_devices-subjects k [] ids id = ground arith
  scan_devices-subjects k (device ∷ devices) ids id =
      elim (Bool-cases (is_overdue d now device && not (contains device.id ids))) [
        | inl e ↦ rw e (
            rw (scan_devices-subjects (k + 1) devices (set_add device.id ids) id)
              (rw (contains-set_add device.id id ids) (ground (arith, same_id))))
        | inr e ↦ rw (e, scan_devices-subjects k devices ids id) (ground (arith, same_id))
      ]
    where
      same_id : nat_eq id device.id ≡ true → contains device.id ids ≡ contains id ids
      same_id e = ap (λ i. contains i ids) (sym (nat_eq→eq id device.id e))

  scan_devices-Distinct :
      (k : ℕ) (devices : List ExistingDevice) (ids : List ℕ)
      → Distinct (subjects (scan_devices s k d now devices ids).1)
  unfolding scan_devices create_disappeared_alert
  scan_devices-Distinct k [] ids = tt
  scan_devices-Distinct k (device ∷ devices) ids =
      elim (Bool-cases (is_overdue d now device && not (contains device.id ids))) [
        | inl e ↦ rw e (
          rw (scan_devices-subjects (k + 1) devices (set_add device.id ids) device.id)
              (rw (contains-set_add device.id device.id ids) (ground arith)),
          scan_devices-Distinct (k + 1) devices (set_add device.id ids),
        )
        | inr e ↦ rw e (scan_devices-Distinct k devices ids)
      ]

abbrev pub alerts_of : Called → List Alert
alerts_of c = elim c.alerts [ none ↦ [] | some alerts ↦ alerts ]

pub alerts-finish :
    (d : ChangeDetector) (alerts r : List Alert) → (finish d alerts).alerts ≡ some r → alerts ≡ r
alerts-finish d alerts r h = ground arith

-- Where the check returns, a device is alerted exactly if it has not been alerted since it was
-- last seen again and some entry for it is older than the timeout; no device is alerted twice;
-- and from then on the devices that count as alerted are those from before and the overdue ones.
pub check_disappeared_devices-exact :
    (s : Supply) (devices : List ExistingDevice) (now : ℕ) (d : ChangeDetector)
    (alerts : List Alert) (id : ℕ)
    → (check_disappeared_devices s devices now d).alerts ≡ some alerts
    → (contains id (subjects alerts)
        ≡ (not (contains id d.disappeared_alerted) && overdue_entry d now id devices))
      × Distinct (subjects alerts)
      × (contains id (check_disappeared_devices s devices now d).state.disappeared_alerted
          ≡ (contains id d.disappeared_alerted || overdue_entry d now id devices))
unfolding check_disappeared_devices
check_disappeared_devices-exact s devices now d alerts id h = rw (← alerts-finish _ _ alerts h) (
  scan_devices-subjects s d now 0 devices d.disappeared_alerted id,
  scan_devices-Distinct s d now 0 devices d.disappeared_alerted,
  scan_devices-ids s d now 0 devices d.disappeared_alerted id,
)

pub check_disappeared_devices-ids :
    (s : Supply) (devices : List ExistingDevice) (now : ℕ) (d : ChangeDetector) (id : ℕ)
    → contains id (check_disappeared_devices s devices now d).state.disappeared_alerted
      ≡ (contains id d.disappeared_alerted || overdue_entry d now id devices)
unfolding check_disappeared_devices
check_disappeared_devices-ids s devices now d id =
    scan_devices-ids s d now 0 devices d.disappeared_alerted id
