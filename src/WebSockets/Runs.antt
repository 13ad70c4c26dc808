-- ===== src/WebSockets/Runs.antt =====
-- Who is connected to app/api/websocket_manager.py after any opened and closed sockets and
-- broadcasts, and who gets a message.
use ot_asset_discovery.WebSockets.{
  Connections, connect, disconnect, disconnected, set_minus, broadcast, admits, open_socket,
}
use ot_asset_discovery.Auth.{Crypto}
use ot_asset_discovery.Prelude.{
  ℕ, ◌≡◌, refl, ap, ◌∙◌, Bool, true, not, ◌&&◌, ◌||◌, Option, List, [], ◌∷◌, arith, nat_eq,
  nat_eq→eq, keep_if, nat_keys, Text, text_keys, contains, set_discard, contains-set_add,
  contains-set_discard,
}

pub data ClientAction : Type 0 where
  open_action : (now : ℕ) (token : Option Text) (accepts : Bool) (websocket : ℕ) → ClientAction
  close_action : (websocket : ℕ) → ClientAction
  send_action : (sends : ℕ → Bool) → ClientAction

contains-set_minus :
    (w : ℕ) (connections gone : Connections)
    → contains w (set_minus connections gone) ≡ (contains w connections && not (contains w gone))
unfolding set_minus
contains-set_minus w connections [] = ground arith
contains-set_minus w connections (x ∷ gone) = ground (
  arith,
  contains-set_minus w (set_discard x connections) gone,
  contains-set_discard x w connections,
)

contains-disconnected :
    (sends : ℕ → Bool) (w : ℕ) (connections : Connections)
    → contains w (disconnected sends connections) ≡ (contains w connections && not (sends w))
unfolding disconnected
contains-disconnected sends w [] = refl
contains-disconnected sends w (x ∷ connections) = ground (
  arith,
  contains-disconnected sends w connections,
  contains-set_add x w (disconnected sends connections),
  same,
)
  where
    same : nat_eq w x ≡ true → sends w ≡ sends x
    same e = ap sends (nat_eq→eq w x e)

contains-keep_if :
    (sends : ℕ → Bool) (w : ℕ) (connections : Connections)
    → contains w (keep_if sends connections) ≡ (contains w connections && sends w)
contains-keep_if sends w [] = refl
contains-keep_if sends w (x ∷ connections) =
    ground (arith, contains-keep_if sends w connections, same)
  where
    same : nat_eq w x ≡ true → sends w ≡ sends x
    same e = ap sends (nat_eq→eq w x e)

broadcast_lem :
    (sends : ℕ → Bool) (w : ℕ) (connections : Connections)
    → (contains w (broadcast sends connections).0 ≡ (contains w connections && sends w))
      × (contains w (broadcast sends connections).1 ≡ (contains w connections && sends w))
unfolding broadcast
broadcast_lem sends w [] = (refl, refl)
broadcast_lem sends w (x ∷ connections) = (
  contains-keep_if sends w (x ∷ connections),
  ground (
    arith,
    contains-set_minus w (x ∷ connections) (disconnected sends (x ∷ connections)),
    contains-disconnected sends w (x ∷ connections),
  ),
)

module _ (c : Crypto) where
  abbrev pub client_step : ClientAction → Connections → Connections
  client_step (open_action now token accepts w) connections =
      open_socket c now token accepts w connections
  client_step (close_action w) connections = disconnect w connections
  client_step (send_action sends) connections = (broadcast sends connections).1

  abbrev pub client_run : List ClientAction → Connections → Connections
  client_run [] connections = connections
  client_run (a ∷ actions) connections = client_run actions (client_step a connections)

  -- Whether the client is still there: the actions say, from whether it was there before them.
  abbrev pub is_live : ℕ → Bool → List ClientAction → Bool
  is_live w before [] = before
  is_live w before (open_action now token accepts x ∷ actions) =
      is_live w ((nat_eq w x && (admits c now token && accepts)) || before) actions
  is_live w before (close_action x ∷ actions) = is_live w (not (nat_eq w x) && before) actions
  is_live w before (send_action sends ∷ actions) = is_live w (before && sends w) actions

  open_socket-live :
      (now : ℕ) (token : Option Text) (accepts : Bool) (w x : ℕ) (connections : Connections)
      → contains w (open_socket c now token accepts x connections)
        ≡ ((nat_eq w x && (admits c now token && accepts)) || contains w connections)
  unfolding open_socket connect
  open_socket-live now token accepts w x connections =
      ground (arith, contains-set_add x w connections)

  disconnect-live :
      (w x : ℕ) (connections : Connections)
      → contains w (disconnect x connections) ≡ (not (nat_eq w x) && contains w connections)
  unfolding disconnect
  disconnect-live w x connections = ground (arith, contains-set_discard x w connections)

  client_run-live :
      (w : ℕ) (actions : List ClientAction) (connections : Connections)
      → contains w (client_run actions connections) ≡ is_live w (contains w connections) actions
  client_run-live w [] connections = refl
  client_run-live w (open_action now token accepts x ∷ actions) connections =
      client_run-live w actions (open_socket c now token accepts x connections)
      ∙ ap (λ b. is_live w b actions) (open_socket-live now token accepts w x connections)
  client_run-live w (close_action x ∷ actions) connections =
      client_run-live w actions (disconnect x connections)
      ∙ ap (λ b. is_live w b actions) (disconnect-live w x connections)
  client_run-live w (send_action sends ∷ actions) connections =
      client_run-live w actions (broadcast sends connections).1
      ∙ ap (λ b. is_live w b actions) (broadcast_lem sends w connections).1

  -- After any opened and closed sockets and broadcasts, a broadcast reaches a client exactly if it
  -- can be sent to, and was there before or was opened with a valid token and accepted, and was
  -- since neither closed nor missed by a broadcast.
  pub client_run-reached :
      (w : ℕ) (actions : List ClientAction) (connections : Connections) (sends : ℕ → Bool)
      → contains w (broadcast sends (client_run actions connections)).0
        ≡ (is_live w (contains w connections) actions && sends w)
  client_run-reached w actions connections sends =
      (broadcast_lem sends w (client_run actions connections)).0
      ∙ ap (λ b. b && sends w) (client_run-live w actions connections)
