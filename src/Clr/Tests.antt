-- ===== src/Clr/Tests.antt =====
-- A hello with a wrong version; a client that asks for something and goes away, while another asks.
use serialmux.Prelude.{List, ◌≡◌, refl, true, [], ◌∷◌, arith, ◌==◌, if◌then◌else◌}
use serialmux.Common.{mux_hello, ok_code}
use serialmux.Mux.{MuxMessage, serialize, size}
use serialmux.Client.{BoostClient, new_client}
use serialmux.Client
use serialmux.Clr.{sends, adds_client, closes, brings, greet}
use serialmux.Clr.Hello.{greet-hello}
use serialmux.Clr.Clients.{new_clients}
use serialmux.Clr.Served.{IsServed, Operation, adds, reads, takes, operations, operations-IsServed}

abbrev client : BoostClient
client = new_client (1 ∷ 2 ∷ 3 ∷ 4 ∷ 5 ∷ 6 ∷ 7 ∷ 8 ∷ []) 4

abbrev hello : MuxMessage
hello = record { payload = 3 ∷ 1 ∷ 2 ∷ 3 ∷ 4 ∷ 5 ∷ 6 ∷ 7 ∷ 8 ∷ []; type = mux_hello; id = 300 }

greet-hello_example :
    greet client.protocol_version client.expected_auth true (brings (serialize hello)) ≡ (
      let result = Client.parse_hello client hello.payload (size hello) in
      sends (Client.build_hello_response client result)
      ∷ (if result == ok_code then adds_client ∷ [] else closes ∷ []))
greet-hello_example = greet-hello client hello refl (omega arith)

abbrev visits : List Operation
visits =
    adds 1
    ∷ adds 2
    ∷ reads (λ i. 18) 1 (hello ∷ hello ∷ []) 40
    ∷ reads (λ i. 18) 2 (hello ∷ []) 20
    ∷ takes
    ∷ reads (λ i. 18) 1 [] 0
    ∷ []

operations-IsServed_example : IsServed (operations 4 visits (new_clients 77))
operations-IsServed_example = operations-IsServed 4 77 visits
