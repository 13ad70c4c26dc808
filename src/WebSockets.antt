-- ===== src/WebSockets.antt =====
-- app/api/websocket_manager.py and the endpoint of app/api/ws_alerts.py. A connection is a number;
-- whether it accepts, and whether a message can be sent to it, are arguments. The lock is held
-- through a broadcast, so that every call is one step.
pub mod Runs
mod Tests
use ot_asset_discovery.Auth.{Crypto, valid, auth_error, decode_access_token}
use ot_asset_discovery.Prelude.{
  ℕ, ◌+◌, Bool, true, false, Option, none, some, List, [], ◌∷◌, if◌then◌else◌, keep_if, Eq, ◌==◌,
  nat_keys, Text, codes, text_keys, set_add, set_discard,
}

-- a set
abbrev pub Connections : Type 0
Connections = List ℕ

pub connect : (accepts : Bool) → ℕ → Connections → Connections
connect accepts websocket connections =
    if accepts then set_add websocket connections else connections

pub disconnect : ℕ → Connections → Connections
disconnect websocket connections = set_discard websocket connections

-- the loop of a broadcast: the connections that fail to be sent the message
pub disconnected : (sends : ℕ → Bool) → Connections → Connections
disconnected sends [] = []
disconnected sends (w ∷ connections) =
    let rest = disconnected sends connections in if sends w then rest else set_add w rest

-- `self._connections -= disconnected`
pub set_minus : Connections → Connections → Connections
set_minus connections [] = connections
set_minus connections (w ∷ gone) = set_minus (set_discard w connections) gone

-- `broadcast_alert` and `broadcast_json`: the connections that get the message, and those left.
pub broadcast : (sends : ℕ → Bool) → Connections → Connections × Connections
broadcast sends [] = ([], [])
broadcast sends (w ∷ connections) = (
  keep_if sends (w ∷ connections),
  set_minus (w ∷ connections) (disconnected sends (w ∷ connections)),
)

-- Whether the token of a new client is one; a missing one is refused with code 4001 as well.
pub admits : Crypto → (now : ℕ) → Option Text → Bool
admits c now none = false
admits c now (some token) = elim (decode_access_token c now token) [
  | valid data_of ↦ true
  | auth_error e ↦ false
]

-- The endpoint up to its loop: the client is closed, or registered.
pub open_socket :
    Crypto → (now : ℕ) → Option Text → (accepts : Bool) → ℕ → Connections → Connections
open_socket c now token accepts websocket connections =
    if admits c now token then connect accepts websocket connections else connections

-- How many times the loop answers, for the messages up to the disconnection.
pub pongs : List Text → ℕ
pongs [] = 0
pongs (m ∷ messages) = (if m == codes "ping" then 1 else 0) + pongs messages
