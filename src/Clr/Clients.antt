-- ===== src/Clr/Clients.antt =====
-- serial_mux/ClientManager.h and serial_mux/ClientManager.cpp: the list of clients of the .NET
-- variant and the queue of their commands, up to `sendCommands`. A client is a number, and so is its
-- socket; what its `read` brings, which is in a header that the repository lacks, is an argument,
-- and so is its subscription. `SUBSCRIBE_FILTER_LENGTH`, which no file defines, is `8 + spare`: in a
-- vector with less the eight writes of `filterToVector` are undefined.
use serialmux.Prelude.{
  ℕ, Bool, false, not, bit_or, Option, none, some, List, [], ◌∷◌, ◌++◌, ◌+◌, replicate, ◌==◌,
  if◌then◌else◌,
}
use serialmux.Common.{subscribe, write_filter}
use serialmux.Mux.{MuxMessage, typed_message}
use serialmux.Manager.{listed, erase}

-- `SClientCommand`, as it is queued.
pub record ClientCommand : Type 0 where
  pub client : Option ℕ
  pub command : MuxMessage

-- `CClients`; `prev_filter` is not set by the constructor.
pub record Clients : Type 0 where
  pub clients : List ℕ
  pub commands : List ClientCommand
  pub filter_union : ℕ
  pub prev_filter : ℕ
  pub active_client : Option ℕ

unfoldable pub new_clients : ℕ → Clients
new_clients prev_filter = record {
  clients = [];
  commands = [];
  filter_union = 0;
  prev_filter = prev_filter;
  active_client = none;
}

unfoldable pub close : Clients → Clients
close m = record m { commands = [] }

unfoldable pub find_client_by_socket : ℕ → Clients → Option ℕ
find_client_by_socket sock m = if listed sock m.clients then some sock else none

unfoldable pub add_client : ℕ → Clients → Clients
add_client i m = record m { clients = m.clients ++ i ∷ [] }

unfoldable pub handle_command : MuxMessage → Clients → Clients
handle_command command m = record m {
  commands = m.commands ++ record { client = m.active_client; command = command } ∷ [];
}

-- The calls of `handleCommand` by the client's parser, in a read.
unfoldable pub handle_commands : List MuxMessage → Clients → Clients
unfolding handle_command
handle_commands [] m = m
handle_commands (msg ∷ msgs) m = handle_commands msgs (handle_command msg m)

-- `isClientCommand` and `removeClientCommands`.
abbrev pub is_client_command : ℕ → ClientCommand → Bool
is_client_command i c = elim c.client [ none ↦ false | some j ↦ j == i ]

unfoldable pub remove_client_commands : ℕ → List ClientCommand → List ClientCommand
remove_client_commands i [] = []
remove_client_commands i (c ∷ cs) =
    let rest = remove_client_commands i cs in if is_client_command i c then rest else c ∷ rest

-- The start of `sendCommands`: the next command, if there is one.
unfoldable pub next_command : Clients → Clients × Option ClientCommand
next_command m = elim m.commands [
  | [] ↦ (m, none)
  | c ∷ rest ↦ (record m { commands = rest }, some c)
]

module _ (spare : ℕ) (get_subscription : ℕ → ℕ) where
  unfoldable pub union_filter : List ℕ → ℕ → ℕ
  union_filter [] filter = filter
  union_filter (i ∷ is) filter = union_filter is (bit_or filter (get_subscription i))

  unfoldable pub recompute_subscribe_filter : Clients → Clients × Bool
  unfolding union_filter
  recompute_subscribe_filter m =
      let union = union_filter m.clients 0 in
      (
        record m { prev_filter = m.filter_union; filter_union = union },
        not (union == m.filter_union),
      )

  -- The filter becomes the parameters without unreliable flags.
  unfoldable pub resubscribe : Clients → Clients
  resubscribe m =
      let payload =
        write_filter (record { filter = m.filter_union; unreliable = 0 })
          (replicate (8 + spare) 0) in
      record m {
        commands =
            m.commands ++ record { client = none; command = typed_message subscribe payload } ∷ [];
      }

  unfoldable pub remove_client : ℕ → Clients → Clients
  unfolding recompute_subscribe_filter resubscribe
  remove_client i m =
      let left = record m {
        commands = remove_client_commands i m.commands;
        clients = erase i m.clients;
      } in
      let (shrunk, changed) = recompute_subscribe_filter left in
      if listed i m.clients then if changed then resubscribe shrunk else shrunk else m

  -- `readMuxMessage`: the client's read calls `handleCommand` for each message, and returns a length.
  unfoldable pub read_mux_message : ℕ → List MuxMessage → ℕ → Clients → Clients
  unfolding remove_client
  read_mux_message sock msgs len m = elim (find_client_by_socket sock m) [
    | none ↦ m
    | some i ↦
        let n = handle_commands msgs (record m { active_client = some i }) in
        let left = if len == 0 then remove_client i n else n in record left { active_client = none }
  ]
