-- ===== src/Auth.antt =====
-- app/api/rate_limiter.py, and the login of app/api/router_auth.py with the tokens of
-- app/api/auth.py. Times are microseconds; the clock is read several times in one call, and
-- every reading is an argument. Password hashing and token signing are third-party code, and
-- are given by a record, in which checking a password may raise; which texts the database takes as
-- addresses is a parameter.
pub mod Window
pub mod Logins
pub mod Tokens
mod Tests
use ot_asset_discovery.Prelude.{
  ℕ, ◌+◌, ◌-◌, ◌*◌, ◌/◌, min, max, Bool, true, false, not, ◌&&◌, Option, none, some, List, [], ◌∷◌,
  ◌++◌, leb, if◌then◌else◌, Text, codes, text_eq,
}
use ot_asset_discovery.Prelude.Strings.{strip, split}

-- MAX_FAILED_ATTEMPTS, WINDOW_MINUTES
abbrev pub max_failed_attempts : ℕ
max_failed_attempts = 5

abbrev pub window_minutes : ℕ
window_minutes = 15

abbrev pub second : ℕ
second = 1_000_000

-- `timedelta(minutes=WINDOW_MINUTES)`
abbrev pub window : ℕ
window = window_minutes * 60 * second

pub record AuthAttempt : Type 0 where
  pub ip_address : Text
  pub attempted_at : ℕ
  pub success : Bool

pub record_auth_attempt : Text → Bool → ℕ → List AuthAttempt → List AuthAttempt
record_auth_attempt ip success now attempts =
    attempts ++ record { ip_address = ip; attempted_at = now; success = success } ∷ []

-- The `where` of both queries: `attempted_at >= now - window` is written without the
-- subtraction.
abbrev pub is_counted : Text → ℕ → AuthAttempt → Bool
is_counted ip now a =
    text_eq a.ip_address ip && (leb now (a.attempted_at + window) && not a.success)

pub get_failed_attempt_count : Text → ℕ → List AuthAttempt → ℕ
get_failed_attempt_count ip now [] = 0
get_failed_attempt_count ip now (a ∷ attempts) =
    let rest = get_failed_attempt_count ip now attempts in
    if is_counted ip now a then rest + 1 else rest

pub is_rate_limited : Text → ℕ → List AuthAttempt → Bool
is_rate_limited ip now attempts = leb max_failed_attempts (get_failed_attempt_count ip now attempts)

-- `ORDER BY attempted_at ASC LIMIT 1`
pub oldest_attempt : Text → ℕ → List AuthAttempt → Option ℕ
oldest_attempt ip now [] = none
oldest_attempt ip now (a ∷ attempts) =
    let rest = oldest_attempt ip now attempts in
    if is_counted ip now a
    then some (elim rest [ none ↦ a.attempted_at | some t ↦ min a.attempted_at t ])
    else rest

-- whole seconds, and 0 if the time has passed
abbrev pub retry_after : Option ℕ → ℕ → ℕ
retry_after none now = window_minutes * 60
retry_after (some t) now = (t + window - now) / second

-- The error's `retry_after_seconds`, or `none` if the request is allowed.
pub check_rate_limit : Text → (counted looked now : ℕ) → List AuthAttempt → Option ℕ
check_rate_limit ip counted looked now attempts =
    if is_rate_limited ip counted attempts
    then some (retry_after (oldest_attempt ip looked attempts) now)
    else none

pub record User : Type 0 where
  pub username : Text
  pub password_hash : Text
  pub role : Text

-- The claims of a token, as the token holds them: the times are whole seconds.
pub record Claims : Type 0 where
  pub sub : Option Text
  pub role : Option Text
  pub exp : ℕ
  pub iat : ℕ

-- `jwt.decode` returns claims, or raises ExpiredSignatureError or another JWTError.
pub data Decoded : Type 0 where
  claims : Claims → Decoded
  expired : Decoded
  jwt_error : Decoded

-- bcrypt, and jose with the configured key; `none` is the ValueError of bcrypt, for a password
-- that is too long or a hash that is none.
pub record Crypto : Type 0 where
  pub checkpw : Text → Text → Option Bool
  pub encode : Claims → Text
  pub decode : (now : ℕ) → Text → Decoded

pub record TokenData : Type 0 where
  pub username : Text
  pub role : Text

pub data AuthError : Type 0 where
  token_expired invalid_token : AuthError

pub data Validated : Type 0 where
  valid : TokenData → Validated
  auth_error : AuthError → Validated

abbrev pub hour : ℕ
hour = 3600 * second

-- `max(1.0, min(24.0, expiration_hours))`, as a time
abbrev pub clamp_hours : ℕ → ℕ
clamp_hours h = max hour (min (24 * hour) h)

-- JWT_EXPIRATION_HOURS, for the value that the environment gives
abbrev pub jwt_expiration : ℕ → ℕ
jwt_expiration configured = clamp_hours configured

abbrev pub verify_password : Crypto → Text → Text → Option Bool
verify_password c plain hashed = c.checkpw plain hashed

-- The lifetime is the argument if there is one, else the configured one.
pub create_access_token :
    Crypto → (configured : ℕ) → (username role : Text) → Option ℕ → (expires issued : ℕ) → Text
create_access_token c configured username role lifetime expires issued =
    let h : ℕ = elim lifetime [ none ↦ jwt_expiration configured | some h ↦ h ] in
    c.encode (record {
      sub = some username;
      role = some role;
      exp = (expires + clamp_hours h) / second;
      iat = issued / second;
    })

abbrev pub read_claims : Option Text → Option Text → Validated
read_claims none role = auth_error invalid_token
read_claims (some u) none = auth_error invalid_token
read_claims (some u) (some r) = valid (record { username = u; role = r })

abbrev pub read_decoded : Decoded → Validated
read_decoded (claims p) = read_claims p.sub p.role
read_decoded expired = auth_error token_expired
read_decoded jwt_error = auth_error invalid_token

unfoldable pub decode_access_token : Crypto → (now : ℕ) → Text → Validated
decode_access_token c now token = read_decoded (c.decode now token)

-- What a request says of its client: the X-Forwarded-For header, and the peer's host.
pub record Request : Type 0 where
  pub forwarded_for : Option Text
  pub host : Option Text

abbrev first_part : List Text → Text
first_part [] = []
first_part (p ∷ parts) = p

abbrev host_or_unknown : Option Text → Text
host_or_unknown none = codes "unknown"
host_or_unknown (some h) = h

-- an empty header counts as none
pub get_client_ip : Request → Text
get_client_ip r = elim r.forwarded_for [
  | none ↦ host_or_unknown r.host
  | some [] ↦ host_or_unknown r.host
  | some (c ∷ s) ↦ strip (first_part (split b',' (c ∷ s)))
]

pub record LoginRequest : Type 0 where
  pub username : Text
  pub password : Text

-- The readings of the clock in one login, in their order.
pub record Times : Type 0 where
  pub counted : ℕ
  pub looked : ℕ
  pub retry : ℕ
  pub recorded : ℕ
  pub expires : ℕ
  pub issued : ℕ

-- The response: a token with its lifetime in seconds, 401, 429 with Retry-After, or 500 for an
-- exception that nothing catches.
pub data Response : Type 0 where
  token_response : (access_token : Text) (expires_in : ℕ) → Response
  unauthorized : Response
  too_many_requests : (retry_after : ℕ) → Response
  server_error : Response

pub record AuthState : Type 0 where
  pub users : List User
  pub attempts : List AuthAttempt

abbrev pub find_user : Text → List User → Option User
find_user name [] = none
find_user name (u ∷ users) = if text_eq u.username name then some u else find_user name users

-- How the check of the credentials ends; verify_password may raise.
pub data Authenticated : Type 0 where
  user_found : User → Authenticated
  not_authenticated password_error : Authenticated

abbrev pub by_password : User → Option Bool → Authenticated
by_password u none = password_error
by_password u (some false) = not_authenticated
by_password u (some true) = user_found u

-- the user whose password was given
pub authenticate : Crypto → LoginRequest → List User → Authenticated
authenticate c l users = elim (find_user l.username users) [
  | none ↦ not_authenticated
  | some u ↦ by_password u (verify_password c l.password u.password_hash)
]

abbrev pub finish_login :
    Crypto → (configured : ℕ) → Text → Times → Authenticated → AuthState → Response × AuthState
finish_login c configured ip t password_error s = (server_error, s)
finish_login c configured ip t not_authenticated s =
    (unauthorized, record s { attempts = record_auth_attempt ip false t.recorded s.attempts })
finish_login c configured ip t (user_found u) s = (
  token_response (create_access_token c configured u.username u.role none t.expires t.issued)
      (jwt_expiration configured / second),
  record s { attempts = record_auth_attempt ip true t.recorded s.attempts },
)

abbrev admit :
    Crypto
    → (configured : ℕ) → Text
    → Times
    → LoginRequest
    → Option ℕ
    → AuthState
    → Response × AuthState
admit c configured ip t l (some retry) s = (too_many_requests retry, s)
admit c configured ip t l none s = finish_login c configured ip t (authenticate c l s.users) s

-- `inet` says which texts the database takes as an address: the first query raises for another.
pub login :
    Crypto
    → (inet : Text → Bool) → (configured : ℕ) → Times
    → LoginRequest
    → Request
    → AuthState
    → Response × AuthState
login c inet configured t l r s =
    let ip = get_client_ip r in
    if inet ip
    then admit c configured ip t l (check_rate_limit ip t.counted t.looked t.retry s.attempts) s
    else (server_error, s)
