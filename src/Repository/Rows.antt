-- ===== src/Repository/Rows.antt =====
-- Lists of rows of app/db/device_repository.py: what finding, replacing and adding a row leave
-- of the invariant, which this file defines.
use ot_asset_discovery.Repository.{
  max_protocols, max_history, DeviceRow, HistoryRow, Store, has_address, find, history_count,
}
use ot_asset_discovery.Repository.Merging.{replace}
use ot_asset_discovery.Prelude.{
  ℕ, ◌≤◌, ◌≡◌, refl, ◌∙◌, inl, inr, Bool, true, false, not, ◌&&◌, ◌||◌, none, some, List, [], ◌∷◌,
  ◌++◌, arith, nat_eq, nat_eq→eq, Bool-cases, length, any, All, text_eq_iff,
}

-- No two rows share an id, nor a MAC and IP address.
abbrev pub NoTwins : List DeviceRow → Type 0
NoTwins [] = Unit
NoTwins (d ∷ devices) =
    (any (λ e. nat_eq e.id d.id) devices ≡ false)
    × (any (has_address d.mac_address d.ip_address) devices ≡ false)
    × NoTwins devices

abbrev pub Limited : List HistoryRow → Type 0
Limited rows = (id : ℕ) → history_count id rows ≤ max_history

pub record IsValid (s : Store) : Type 0 where
  pub no_twins : NoTwins s.devices
  pub protocols_fit : All (λ d. length d.protocols ≤ max_protocols) s.devices
  pub history_fits : Limited s.history

module _ (p : DeviceRow → Bool) (old d : DeviceRow) where
  pub any-replace :
      (q : DeviceRow → Bool) (devices : List DeviceRow)
      → q d ≡ q old
      → find p devices ≡ some old
      → any q (replace p d devices) ≡ any q devices
  any-replace q [] h e = refl
  any-replace q (r ∷ devices) h e = ground (arith, any-replace q devices)

  pub All-replace :
      (devices : List DeviceRow)
      → length d.protocols ≤ max_protocols
      → All (λ r. length r.protocols ≤ max_protocols) devices
      → All (λ r. length r.protocols ≤ max_protocols) (replace p d devices)
  All-replace [] h a = tt
  All-replace (r ∷ devices) h a = elim (Bool-cases (p r)) [
    | inl e ↦ rw e (h, a.1)
    | inr e ↦ rw e (a.0, All-replace devices h a.1)
  ]

  pub NoTwins-replace :
      (devices : List DeviceRow)
      → d.id ≡ old.id
      → d.mac_address ≡ old.mac_address
      → d.ip_address ≡ old.ip_address
      → find p devices ≡ some old
      → NoTwins devices
      → NoTwins (replace p d devices)
  NoTwins-replace [] hi hm ha e h = tt
  NoTwins-replace (r ∷ devices) hi hm ha e h = elim (Bool-cases (p r)) [
    | inl q ↦
        let same : r ≡ old = ground (arith, e, q) in
        rw q (rw (hi, ← same) h.0, rw (hm, ha, ← same) h.1, h.2)
    | inr q ↦
        let later : find p devices ≡ some old = ground (arith, e, q) in
        rw q (
          any-replace (λ x. nat_eq x.id r.id) devices (rw hi) later ∙ h.0,
          any-replace (has_address r.mac_address r.ip_address) devices (rw (hm, ha)) later ∙ h.1,
          NoTwins-replace devices hi hm ha later h.2,
        )
  ]

-- A row that is found passes the test, and is one of the rows.
pub find_sound :
    (p : DeviceRow → Bool) (devices : List DeviceRow) (d : DeviceRow)
    → find p devices ≡ some d
    → p d ≡ true
find_sound p [] d h = cc
find_sound p (e ∷ devices) d h = ground (arith, find_sound p devices d)

pub find-All :
    (p : DeviceRow → Bool) (devices : List DeviceRow) (d : DeviceRow)
    → find p devices ≡ some d
    → All (λ r. length r.protocols ≤ max_protocols) devices
    → length d.protocols ≤ max_protocols
find-All p [] d h a = cc
find-All p (e ∷ devices) d h a = ground (arith, find-All p devices d)

pub any-append_one :
    (q : DeviceRow → Bool) (devices : List DeviceRow) (d : DeviceRow)
    → any q (devices ++ d ∷ []) ≡ (any q devices || q d)
any-append_one q [] d = ground arith
any-append_one q (e ∷ devices) d = ground (arith, any-append_one q devices d)

-- A row of another id and another address may be added.
pub NoTwins-append :
    (devices : List DeviceRow) (d : DeviceRow)
    → find (λ e. nat_eq e.id d.id) devices ≡ none
    → find (has_address d.mac_address d.ip_address) devices ≡ none
    → NoTwins devices
    → NoTwins (devices ++ d ∷ [])
NoTwins-append [] d hi ha h = (refl, refl, tt)
NoTwins-append (e ∷ devices) d hi ha h = (
  ground (arith, any-append_one (λ x. nat_eq x.id e.id) devices d),
  ground (
    arith,
    any-append_one (has_address e.mac_address e.ip_address) devices d,
    text_eq_iff e.mac_address d.mac_address,
    text_eq_iff d.mac_address e.mac_address,
    text_eq_iff e.ip_address d.ip_address,
    text_eq_iff d.ip_address e.ip_address,
  ),
  NoTwins-append devices d (ground arith) (ground arith) h.2,
)

pub All-append_one :
    (devices : List DeviceRow) (d : DeviceRow)
    → All (λ r. length r.protocols ≤ max_protocols) devices
    → length d.protocols ≤ max_protocols
    → All (λ r. length r.protocols ≤ max_protocols) (devices ++ d ∷ [])
All-append_one [] d a h = (h, tt)
All-append_one (e ∷ devices) d a h = (a.0, All-append_one devices d a.1 h)

any-replace-false :
    (p q : DeviceRow → Bool) (d : DeviceRow) (devices : List DeviceRow)
    → q d ≡ false
    → any q devices ≡ false
    → any q (replace p d devices) ≡ false
any-replace-false p q d [] h a = refl
any-replace-false p q d (e ∷ devices) h a = ground (arith, any-replace-false p q d devices h)

any_without :
    (q r : DeviceRow → Bool) (devices : List DeviceRow)
    → any (λ e. q e && not (r e)) devices ≡ false
    → any r devices ≡ false
    → any q devices ≡ false
any_without q r [] h a = refl
any_without q r (e ∷ devices) h a = ground (arith, any_without q r devices)

-- A row may move to an address that no other row holds.
pub NoTwins-readdress :
    (d : DeviceRow) (devices : List DeviceRow)
    → any (λ e. has_address d.mac_address d.ip_address e && not (nat_eq e.id d.id)) devices ≡ false
    → NoTwins devices
    → NoTwins (replace (λ e. nat_eq e.id d.id) d devices)
NoTwins-readdress d [] free h = tt
NoTwins-readdress d (r ∷ devices) free h = elim (Bool-cases (nat_eq r.id d.id)) [
  | inl q ↦
      let others : any (λ e. nat_eq e.id d.id) devices ≡ false =
        rw (nat_eq→eq r.id d.id q) at h.0 in
      rw q (
        others,
        any_without (has_address d.mac_address d.ip_address) (λ e. nat_eq e.id d.id) devices
            (ground arith) others,
        h.2,
      )
  | inr q ↦ rw q (
    any-replace-false (λ e. nat_eq e.id d.id) (λ e. nat_eq e.id r.id) d devices (ground arith) h.0,
    any-replace-false (λ e. nat_eq e.id d.id) (has_address r.mac_address r.ip_address) d devices
        (ground (
          arith,
          text_eq_iff r.mac_address d.mac_address,
          text_eq_iff d.mac_address r.mac_address,
          text_eq_iff r.ip_address d.ip_address,
          text_eq_iff d.ip_address r.ip_address,
        ))
        h.1,
    NoTwins-readdress d devices (ground arith) h.2,
  )
]
