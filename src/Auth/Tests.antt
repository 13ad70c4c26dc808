-- ===== src/Auth/Tests.antt =====
-- Logins and tokens at concrete clients, with a signing library that only writes the claims down.
use ot_asset_discovery.Prelude.{
  ℕ, zero, suc, ◌+◌, ◌*◌, ◌/◌, ◌≤◌, ◌≡◌, refl, Bool, false, Option, none, some, List, [], ◌∷◌, ◌++◌,
  arith, ltb, if◌then◌else◌, length, Text, codes, text_eq,
}
use ot_asset_discovery.Auth.{
  max_failed_attempts, second, AuthAttempt, get_failed_attempt_count, is_rate_limited,
  oldest_attempt, check_rate_limit, User, Claims, Decoded, claims, expired, jwt_error, Crypto,
  create_access_token, Request, LoginRequest, Times, AuthState,
}
use ot_asset_discovery.Auth.Logins.{LoginResponds, login_lem, Call, run, run-limited}
use ot_asset_discovery.Auth.Tokens.{Signs}

abbrev split_at : ℕ → Text → Text × Text
split_at zero s = ([], s)
split_at (suc n) [] = ([], [])
split_at (suc n) (c ∷ s) = let (front, back) = split_at n s in (c ∷ front, back)

split_at-length : (s t : Text) → split_at (length s) (s ++ t) ≡ (s, t)
split_at-length [] t = refl
split_at-length (c ∷ s) t = rw (split_at-length s t) refl

abbrev text_or_empty : Option Text → Text
text_or_empty none = []
text_or_empty (some s) = s

abbrev plain_encode : Claims → Text
plain_encode p =
    let u = text_or_empty p.sub in p.exp ∷ p.iat ∷ length u ∷ (u ++ text_or_empty p.role)

abbrev plain_decode : (now : ℕ) → Text → Decoded
plain_decode now (exp ∷ iat ∷ n ∷ s) =
    let (u, r) = split_at n s in
    if ltb exp (now / second)
    then expired
    else claims (record { sub = some u; role = some r; exp = exp; iat = iat })
plain_decode now s = jwt_error

abbrev plain : Crypto
plain = record {
  checkpw = λ p hash. some (text_eq p hash);
  encode = plain_encode;
  decode = plain_decode;
}

plain-Signs : Signs plain
plain-Signs username role exp iat now = rw (split_at-length username role) refl

abbrev token : Text
token = create_access_token plain 0 (codes "ann") (codes "admin") none 50 51

abbrev attacker : Text
attacker = codes "10.0.0.9"

abbrev failed_at : ℕ → AuthAttempt
failed_at t = record { ip_address = attacker; attempted_at = t; success = false }

abbrev five_failures : List AuthAttempt
five_failures =
    failed_at second
    ∷ failed_at (2 * second)
    ∷ failed_at (2 * second)
    ∷ failed_at (3 * second)
    ∷ failed_at (4 * second)
    ∷ []

five-refused :
    check_rate_limit attacker (10 * second) (10 * second) (10 * second) five_failures ≡ some 891
unfolding check_rate_limit is_rate_limited get_failed_attempt_count oldest_attempt
five-refused = refl

abbrev ann : User
ann = record { username = codes "ann"; password_hash = codes "pw"; role = codes "admin" }

abbrev site : AuthState
site = record { users = ann ∷ []; attempts = failed_at second ∷ [] }

abbrev times : ℕ → Times
times t = record {
  counted = t;
  looked = t;
  retry = t;
  recorded = t + 1;
  expires = t + 2;
  issued = t + 3;
}

abbrev direct : Request
direct = record { forwarded_for = none; host = some attacker }

abbrev wrong : LoginRequest
wrong = record { username = codes "ann"; password = codes "no" }

abbrev right : LoginRequest
right = record { username = codes "ann"; password = codes "pw" }

-- the one address of the tests
abbrev dotted_quad : Text → Bool
dotted_quad ip = text_eq ip attacker

login_lem_example : LoginResponds plain dotted_quad 0 (times second) right direct site
login_lem_example = login_lem plain dotted_quad 0 (times second) right direct site

abbrev call : ℕ → LoginRequest → Call
call t l = record { times = times t; login_request = l; request = direct }

abbrev calls : List Call
calls = call (2 * second) wrong ∷ call (3 * second) right ∷ []

run-limited_example :
    get_failed_attempt_count attacker (4 * second) (run plain dotted_quad 0 calls site).attempts
    ≤ max_failed_attempts
unfolding get_failed_attempt_count
run-limited_example =
    run-limited plain dotted_quad 0 second (4 * second) calls site attacker (ground arith)
      (ground arith, ground arith, (ground arith, ground arith, ground arith))
