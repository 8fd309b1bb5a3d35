-- ===== src/Listener.antt =====
-- serial_mux/BoostClientListener.h and serial_mux/BoostClientListener.cpp: the listener, which makes
-- a client for each connection. The acceptor is boost's: `accepting` says that an accept is under
-- way, and `pending` is the client that it is for.
use serialmux.Prelude.{ℕ, Bool, true, false, Option, none, some, List, take, if◌then◌else◌}
use serialmux.Client.{BoostClient, Request, new_client, authentication_len, start}

-- `CBoostClientListener`.
pub record Listener : Type 0 where
  pub port : ℕ
  pub localhost_only : Bool
  pub is_listening : Bool
  pub expected_auth : List ℕ
  pub protocol_version : ℕ
  pub open_acceptor : Bool
  pub pending : Option BoostClient

-- The constructor.
unfoldable pub new_listener : ℕ → Bool → List ℕ → ℕ → Listener
new_listener port use_localhost auth_token protocol_version = record {
  port = port;
  localhost_only = use_localhost;
  is_listening = false;
  expected_auth = take authentication_len auth_token;
  protocol_version = protocol_version;
  open_acceptor = true;
  pending = none;
}

-- `stop`.
unfoldable pub stop : Listener → Listener
stop l = record l { is_listening = false; open_acceptor = false }

-- `set_protocolVersion`.
unfoldable pub set_protocol_version : ℕ → Listener → Listener
set_protocol_version version l = record l { protocol_version = version }

-- `asyncListen`.
unfoldable pub async_listen : Listener → Listener
async_listen l = record l { pending = some (new_client l.expected_auth l.protocol_version) }

-- `handleAccept`: the client that starts, with its requests, and the listener. Without a pending
-- client there is no accept to complete.
unfoldable pub handle_accept : Bool → Listener → Listener × Option (BoostClient × List Request)
unfolding async_listen
handle_accept error l = elim l.pending [
  | none ↦ (l, none)
  | some c ↦ if error then (record l { pending = none }, none) else (async_listen l, some (start c))
]
