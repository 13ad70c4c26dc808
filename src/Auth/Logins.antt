-- ===== src/Auth/Logins.antt =====
-- The login of app/api/router_auth.py, one request and any sequence of them.
use ot_asset_discovery.Prelude.{
  ℕ, ◌/◌, ◌≤◌, ◌≡◌, refl, sym, subst, inl, inr, Bool, true, false, not, Option, none, some, List,
  [], ◌∷◌, arith, if◌then◌else◌, Bool-cases, Option-cases, Text, text_eq, text_eq_iff,
}
use ot_asset_discovery.Auth.{
  max_failed_attempts, second, AuthAttempt, record_auth_attempt, get_failed_attempt_count,
  is_rate_limited, check_rate_limit, User, Crypto, jwt_expiration, verify_password,
  create_access_token, Request, get_client_ip, LoginRequest, Times, Response, token_response,
  unauthorized, too_many_requests, server_error, AuthState, find_user, Authenticated, user_found,
  not_authenticated, password_error, by_password, authenticate, finish_login, login,
}
use ot_asset_discovery.Auth.Window.{count_anti, count-append_one}
use ot_asset_discovery.Capture.Prober.{success}

-- The response and the attempts that a check of the credentials leads to.
abbrev pub Responds :
    Crypto
    → (configured : ℕ) → Times
    → LoginRequest
    → Request
    → AuthState
    → Authenticated
    → Response × AuthState
    → Type 0
Responds c configured t l r s password_error (response, s') =
    ((u : User) × (find_user l.username s.users ≡ some u)
      × (verify_password c l.password u.password_hash ≡ none))
    × (response ≡ server_error)
    × (s'.attempts ≡ s.attempts)
Responds c configured t l r s not_authenticated (response, s') =
    ((u : User)
      → find_user l.username s.users ≡ some u
      → verify_password c l.password u.password_hash ≡ some false)
    × (response ≡ unauthorized)
    × (s'.attempts ≡ record_auth_attempt (get_client_ip r) false t.recorded s.attempts)
Responds c configured t l r s (user_found u) (response, s') =
    ((find_user l.username s.users ≡ some u)
      × (verify_password c l.password u.password_hash ≡ some true))
    × (response
        ≡ token_response
            (create_access_token c configured u.username u.role none t.expires t.issued)
            (jwt_expiration configured / second))
    × (s'.attempts ≡ record_auth_attempt (get_client_ip r) true t.recorded s.attempts)

-- One login, on every branch.
abbrev pub LoginResponds :
    Crypto → (Text → Bool) → (configured : ℕ) → Times → LoginRequest → Request → AuthState → Type 0
LoginResponds c inet configured t l r s =
    let ip = get_client_ip r in
    let (response, s') = login c inet configured t l r s in
    (s'.users ≡ s.users)
    × (if not (inet ip)
        then (s'.attempts ≡ s.attempts) × (response ≡ server_error)
        else (if is_rate_limited ip t.counted s.attempts
            then (s'.attempts ≡ s.attempts) × ((retry : ℕ) × (response ≡ too_many_requests retry))
            else Responds c configured t l r s (authenticate c l s.users) (response, s')))

module _ (c : Crypto) (configured : ℕ) (t : Times) (l : LoginRequest) (r : Request)
    (s : AuthState) where
  Done : Authenticated → Type 0
  Done a =
      ((finish_login c configured (get_client_ip r) t a s).1.users ≡ s.users)
      × Responds c configured t l r s a (finish_login c configured (get_client_ip r) t a s)

  unknown-Done : find_user l.username s.users ≡ none → Done not_authenticated
  unfolding Done
  unknown-Done q = (refl, ((λ u e. absurd (ground (arith, q, e))), refl, refl))

  known-Done :
      (u : User) (o : Option Bool)
      → find_user l.username s.users ≡ some u
      → verify_password c l.password u.password_hash ≡ o
      → Done (by_password u o)
  unfolding Done
  known-Done u none q v = (refl, ((u, q, v), refl, refl))
  known-Done u (some true) q v = (refl, ((q, v), refl, refl))
  known-Done u (some false) q v = (refl, ((λ w e. ground (arith, q, e, v)), refl, refl))

  authenticate-Done : Done (authenticate c l s.users)
  unfolding authenticate
  authenticate-Done = elim (Option-cases (find_user l.username s.users)) [
    | inl q ↦
        let e : authenticate c l s.users ≡ not_authenticated = rw (q, authenticate) refl in
        subst Done (sym e) (unknown-Done q)
    | inr (u, q) ↦
        let o = verify_password c l.password u.password_hash in
        let e : authenticate c l s.users ≡ by_password u o = rw (q, authenticate) refl in
        subst Done (sym e) (known-Done u o q refl)
  ]

-- A login whose client has no address that the database takes fails with 500, and nothing is
-- recorded. Else it is refused with 429, and nothing is recorded, exactly if its address is
-- rate-limited. Else, where the user is known and bcrypt raises on the password, it fails with 500
-- and nothing is recorded; where the user is known and the password verifies, a success is
-- recorded, and the response is that user's token; and otherwise a failure is recorded, and the
-- response is 401. The users stay as they are.
pub login_lem :
    (c : Crypto) (inet : Text → Bool) (configured : ℕ) (t : Times) (l : LoginRequest) (r : Request)
    (s : AuthState)
    → LoginResponds c inet configured t l r s
unfolding login check_rate_limit
login_lem c inet configured t l r s =
    let ip = get_client_ip r in
    elim (Bool-cases (inet ip)) [
      | inr b ↦ rw b (refl, (refl, refl))
      | inl b ↦ elim (Bool-cases (is_rate_limited ip t.counted s.attempts)) [
        | inl e ↦ rw (b, e) (refl, (refl, (_, refl)))
        | inr e ↦ rw (b, e) (unfold Done in authenticate-Done c configured t l r s)
      ]
    ]

pub record Call : Type 0 where
  pub times : Times
  pub login_request : LoginRequest
  pub request : Request

-- One login after the other.
abbrev pub run :
    Crypto → (inet : Text → Bool) → (configured : ℕ) → List Call → AuthState → AuthState
run c inet configured [] s = s
run c inet configured (k ∷ calls) s =
    run c inet configured calls (login c inet configured k.times k.login_request k.request s).1

-- The clock does not go back, from the time on up to the end; the logins are one after the other.
abbrev pub InOrder : (start : ℕ) → List Call → (end : ℕ) → Type 0
InOrder start [] end = start ≤ end
InOrder start (k ∷ calls) end =
    (start ≤ k.times.counted)
    × (k.times.counted ≤ k.times.recorded)
    × InOrder k.times.recorded calls end

-- Whether an attempt is recorded as a success, if one is.
abbrev success_of : Authenticated → Option Bool
success_of password_error = none
success_of not_authenticated = some false
success_of (user_found u) = some true

abbrev recorded_if : Text → ℕ → Option Bool → List AuthAttempt → List AuthAttempt
recorded_if ip now none attempts = attempts
recorded_if ip now (some success) attempts = record_auth_attempt ip success now attempts

finish_login_attempts :
    (c : Crypto) (configured : ℕ) (ip : Text) (t : Times) (a : Authenticated) (s : AuthState)
    → (finish_login c configured ip t a s).1.attempts
      ≡ recorded_if ip t.recorded (success_of a) s.attempts
finish_login_attempts c configured ip t password_error s = refl
finish_login_attempts c configured ip t not_authenticated s = refl
finish_login_attempts c configured ip t (user_found u) s = refl

-- Behind a check that passes, one more attempt is within the limit.
recorded_count :
    (ip client : Text) (known : Bool) (counted recorded now : ℕ) (attempts : List AuthAttempt)
    → is_rate_limited client counted attempts ≡ false
    → get_failed_attempt_count ip counted attempts ≤ max_failed_attempts
    → counted ≤ now
    → get_failed_attempt_count ip now (record_auth_attempt client known recorded attempts)
      ≤ max_failed_attempts
unfolding is_rate_limited record_auth_attempt
recorded_count ip client known counted recorded now attempts free h k =
    let fewer = count_anti ip counted now attempts k in
    rw (count-append_one ip now attempts _) (elim (Bool-cases (text_eq client ip)) [
      | inl e ↦
          let same : client ≡ ip = (text_eq_iff client ip).0 e in ground (arith, rw same at free)
      | inr e ↦ ground arith
    ])

recorded_if_count :
    (ip client : Text) (o : Option Bool) (counted recorded now : ℕ) (attempts : List AuthAttempt)
    → is_rate_limited client counted attempts ≡ false
    → get_failed_attempt_count ip counted attempts ≤ max_failed_attempts
    → counted ≤ now
    → get_failed_attempt_count ip now (recorded_if client recorded o attempts) ≤ max_failed_attempts
recorded_if_count ip client none counted recorded now attempts free h k =
    ground (arith, count_anti ip counted now attempts k)
recorded_if_count ip client (some known) counted recorded now attempts free h k =
    recorded_count ip client known counted recorded now attempts free h k

login_count :
    (c : Crypto) (inet : Text → Bool) (configured : ℕ) (t : Times) (l : LoginRequest) (r : Request)
    (s : AuthState) (ip : Text) (now : ℕ)
    → get_failed_attempt_count ip t.counted s.attempts ≤ max_failed_attempts
    → t.counted ≤ now
    → get_failed_attempt_count ip now (login c inet configured t l r s).1.attempts
      ≤ max_failed_attempts
unfolding login check_rate_limit
login_count c inet configured t l r s ip now h k =
    let client = get_client_ip r in
    let same : get_failed_attempt_count ip now s.attempts ≤ max_failed_attempts =
      ground (arith, count_anti ip t.counted now s.attempts k) in
    elim (Bool-cases (inet client)) [
      | inr b ↦ rw b same
      | inl b ↦ elim (Bool-cases (is_rate_limited client t.counted s.attempts)) [
        | inl e ↦ rw (b, e) same
        | inr e ↦
            rw (b, e, finish_login_attempts c configured client t (authenticate c l s.users) s)
              (recorded_if_count ip client (success_of (authenticate c l s.users)) t.counted
                t.recorded now s.attempts e h k)
      ]
    ]

-- In any sequence of logins, one after the other, from any addresses and with any credentials,
-- no address ever has more than 5 failed attempts in a window of 15 minutes, if none has at the
-- start.
pub run-limited :
    (c : Crypto) (inet : Text → Bool) (configured start end : ℕ) (calls : List Call) (s : AuthState)
    (ip : Text)
    → get_failed_attempt_count ip start s.attempts ≤ max_failed_attempts
    → InOrder start calls end
    → get_failed_attempt_count ip end (run c inet configured calls s).attempts ≤ max_failed_attempts
run-limited c inet configured start end [] s ip h o =
    ground (arith, count_anti ip start end s.attempts o)
run-limited c inet configured start end (k ∷ calls) s ip h o =
    let s' = (login c inet configured k.times k.login_request k.request s).1 in
    run-limited c inet configured k.times.recorded end calls s' ip
      (login_count c inet configured k.times k.login_request k.request s ip k.times.recorded
        (ground (arith, count_anti ip start k.times.counted s.attempts o.0)) o.1)
      o.2
