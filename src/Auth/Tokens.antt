-- ===== src/Auth/Tokens.antt =====
-- The tokens of app/api/auth.py, for a signing library that gives the claims back.
use ot_asset_discovery.Auth.{
  second, Claims, claims, expired, Crypto, token_expired, valid, auth_error, hour, clamp_hours,
  jwt_expiration, create_access_token, decode_access_token,
}
use ot_asset_discovery.Prelude.{
  ℕ, ◌+◌, ◌*◌, ◌/◌, ◌≤◌, ◌≡◌, refl, true, false, Option, none, some, arith, ltb, if◌then◌else◌,
  Text,
}

-- What the library documents: the claims of a token that it signed come back up to the second
-- of their expiry, and later the signature counts as expired.
abbrev pub Signs : Crypto → Type 0
Signs c =
    (username role : Text) (exp iat now : ℕ)
    → let p : Claims = record { sub = some username; role = some role; exp = exp; iat = iat } in
      c.decode now (c.encode p) ≡ (if ltb exp (now / second) then expired else claims p)

-- Whatever lifetime is asked for or configured, a token stands for its user and role for at least
-- an hour after it was made.
pub token_valid :
    (c : Crypto) (configured : ℕ) (username role : Text) (lifetime : Option ℕ)
    (expires issued now : ℕ)
    → Signs c
    → now ≤ expires + hour
    → decode_access_token c now
        (create_access_token c configured username role lifetime expires issued)
      ≡ valid (record { username = username; role = role })
unfolding create_access_token decode_access_token
token_valid c configured username role lifetime expires issued now signs k =
    let h : ℕ = elim lifetime [ none ↦ jwt_expiration configured | some h ↦ h ] in
    let exp = (expires + clamp_hours h) / second in
    let lasts : hour ≤ clamp_hours h = omega arith in
    let early : ltb exp (now / second) ≡ false = ground (arith, k, lasts) in
    rw (signs username role exp (issued / second) now, early) refl

-- Whatever lifetime is asked for or configured, a token is refused as expired from 24 hours and a
-- second after it was made.
pub token_expires :
    (c : Crypto) (configured : ℕ) (username role : Text) (lifetime : Option ℕ)
    (expires issued now : ℕ)
    → Signs c
    → expires + 24 * hour + second ≤ now
    → decode_access_token c now
        (create_access_token c configured username role lifetime expires issued)
      ≡ auth_error token_expired
unfolding create_access_token decode_access_token
token_expires c configured username role lifetime expires issued now signs k =
    let h : ℕ = elim lifetime [ none ↦ jwt_expiration configured | some h ↦ h ] in
    let exp = (expires + clamp_hours h) / second in
    let ends : clamp_hours h ≤ 24 * hour = omega arith in
    let late : ltb exp (now / second) ≡ true = ground (arith, k, ends) in
    rw (signs username role exp (issued / second) now, late) refl
