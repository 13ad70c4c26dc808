-- ===== src/WebSockets/Tests.antt =====
-- The connections at a concrete run: a client that a broadcast misses is dropped.
use ot_asset_discovery.Prelude.{
  ℕ, ◌≡◌, refl, true, false, ◌&&◌, none, some, List, [], ◌∷◌, nat_eq, if◌then◌else◌, nat_keys,
  codes, text_eq, text_keys, contains,
}
use ot_asset_discovery.Auth.{claims, jwt_error, Crypto, decode_access_token}
use ot_asset_discovery.WebSockets.{
  connect, disconnected, set_minus, broadcast, admits, open_socket, pongs,
}
use ot_asset_discovery.WebSockets.Runs.{
  ClientAction, open_action, send_action, client_run, is_live, client_run-reached,
}

-- one token is valid
abbrev one_token : Crypto
one_token = record {
  checkpw = λ p q. some false;
  encode = λ p. [];
  decode = λ now token.
      if text_eq token (codes "ann")
      then claims
          (record { sub = some (codes "ann"); role = some (codes "viewer"); exp = 9; iat = 1 })
      else jwt_error;
}

abbrev visits : List ClientAction
visits =
    open_action 1 (some (codes "ann")) true 4
    ∷ open_action 2 (some (codes "bob")) true 5
    ∷ open_action 3 (some (codes "ann")) true 6
    ∷ open_action 4 none true 7
    ∷ send_action (λ w. nat_eq w 4)
    ∷ []

visits-connections : client_run one_token visits [] ≡ 4 ∷ []
unfolding open_socket connect admits decode_access_token broadcast disconnected set_minus
visits-connections = refl

client_run-reached_example :
    contains {A = ℕ} 4 (broadcast (λ w. true) (client_run one_token visits [])).0
    ≡ (is_live one_token 4 false visits && true)
client_run-reached_example = client_run-reached one_token 4 visits [] (λ w. true)

pongs-two : pongs (codes "ping" ∷ codes "hello" ∷ codes "ping" ∷ []) ≡ 2
unfolding pongs
pongs-two = refl
