-- ===== src/Server/Tests.antt =====
-- A round in which a client connects, and says hello and asks for `MUX_INFO` in one read; six steps
-- of the manager's loop follow.
use serialmux.Prelude.{
  ℕ, ◌≡◌, refl, false, none, some, List, [], ◌∷◌, ◌++◌, length, All, take, replicate, arith,
}
use serialmux.Mux.{
  size, word_bytes, read, parse_loop, drain, parse, parse_found, parse_none, wait, callback,
  parsed_message, new_parser, search_token, is_prefix, mux_output, serialize_output,
}
use serialmux.Client.{
  check_auth, parse_hello, build_hello_response, hello_command, handle_command, handle_commands,
  parse_input, handle_input, handle_read, start,
}
use serialmux.Client.States.{reads, happen}
use serialmux.Manager.{no_command, client_command, new_manager, add_client, add_command}
use serialmux.Server.Recipients.{turns, asks, asks-IsAddressed}
use serialmux.Manager.Defined.{HasFilter, IsDefined}
use serialmux.Common.{mux_info_payload, is_picard_api_command, get_version}
use serialmux.Manager.{send_response, listed}
use serialmux.Manager.Loop.{process, info_command}
use serialmux.Queue.{finish_pop, new_queue, push, begin_pop}
use serialmux.Listener.{new_listener, set_protocol_version, async_listen, handle_accept}
use serialmux.Server.{Server, Effect, do_actions, do_request, do_requests}
use serialmux.Server.Loop.{
  LoopOptions, start_server, Input, accepts, client_does, loop_runs, hello_done, listen,
  accept_client, client_step, manager_step, step, steps,
}
use serialmux.Server.Invariant.{IsConsistent}
use serialmux.Manager.Loop.{loop_step, start_loop}
use serialmux.Manager.Steps.{IsAddressed}
use serialmux.Manager.{Action, of_client}
use serialmux.Client.{write}
use serialmux.Server.Taken.{taken}
use serialmux.Server.Progress.{taken_in_order}
use serialmux.Server.Steps.{steps-IsConsistent}

abbrev token : List ℕ
token = 48 ∷ 49 ∷ 50 ∷ 51 ∷ 52 ∷ 53 ∷ 54 ∷ 55 ∷ []

abbrev options : LoopOptions
options = record {
  picard_retries = 3;
  listener_port = 9900;
  accept_anyhost = false;
  auth_token = token;
}

abbrev hello : List ℕ
hello = 0xa7 ∷ 0x40 ∷ 0xa0 ∷ 0xf5 ∷ 0 ∷ 12 ∷ 0 ∷ 0 ∷ 1 ∷ 0 ∷ token

abbrev info : List ℕ
info = 0xa7 ∷ 0x40 ∷ 0xa0 ∷ 0xf5 ∷ 0 ∷ 3 ∷ 0 ∷ 0 ∷ 2 ∷ []

abbrev inputs : List Input
inputs = hello_done ∷ accepts false ∷ client_does 0 (reads (hello ++ info)) ∷ loop_runs ∷ []

abbrev outcome : Server × List Effect
outcome = elim (steps inputs (start_server options)) [
  | none ↦ (start_server options, [])
  | some r ↦ r
]

abbrev answer : List Action
answer =
    of_client 0
      (write (167 ∷ 64 ∷ 160 ∷ 245 ∷ 0 ∷ 10 ∷ 0 ∷ 0 ∷ 2 ∷ 0 ∷ 0 ∷ 1 ∷ 1 ∷ 2 ∷ 0 ∷ 17 ∷ []))
    ∷ []

-- The client is in the list, its command is queued, no `SUBSCRIBE` is, and it is answered next.
facts :
    (steps inputs (start_server options) ≡ some (outcome.0, outcome.1))
    × (outcome.0.manager.clients ≡ 0 ∷ [])
    × (length outcome.0.manager.commands.items ≡ 1)
    × All HasFilter outcome.0.manager.commands.items
    × (asks outcome.0 turns ≡ some answer)
    × IsDefined (steps (replicate 6 loop_runs) outcome.0)
unfolding steps step listen accept_client client_step start_server start_loop new_manager new_queue
    no_command new_listener set_protocol_version async_listen handle_accept start happen handle_read
    handle_input parse_input handle_commands handle_command hello_command parse_hello check_auth
    build_hello_response do_requests do_request add_client add_command client_command push
    manager_step loop_step begin_pop do_actions read parse_loop drain parse parse_found parse_none
    wait callback parsed_message new_parser search_token is_prefix size word_bytes mux_output
    serialize_output asks finish_pop process info_command send_response mux_info_payload listed
    is_picard_api_command get_version
facts = (refl, refl, refl, (λ e. absurd (omega arith), tt), refl, tt)

steps-IsConsistent_example : IsConsistent outcome.0
steps-IsConsistent_example = steps-IsConsistent options inputs outcome.0 outcome.1 facts.0

asks-IsAddressed_example : All (IsAddressed outcome.0.next_client outcome.0.manager.store) answer
asks-IsAddressed_example =
    asks-IsAddressed options inputs outcome.0 outcome.1 turns answer facts.0 facts.4

taken_in_order_example :
    take 1 (taken (replicate 6 loop_runs) outcome.0) ≡ take 1 outcome.0.manager.commands.items
taken_in_order_example =
    taken_in_order options inputs (replicate 6 loop_runs) outcome.0 outcome.1 1 facts.0 facts.5
      (omega (arith, facts.2)) (omega arith)
