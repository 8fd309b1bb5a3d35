-- ===== src/Clr/Served.antt =====
-- The .NET variant's queue holds commands of clients in its list only.
use serialmux.Prelude.{
  ℕ, ◌≡◌, refl, subst, true, false, Bool-cases, Option-cases, inl, inr, Option, none, some, List,
  [], ◌∷◌, ◌++◌, All, All-append, ◌==◌, arith, ==→eq,
}
use serialmux.Mux.{MuxMessage}
use serialmux.Manager.{listed, erase}
use serialmux.Clr.Clients.{
  ClientCommand, Clients, new_clients, close, find_client_by_socket, add_client, handle_command,
  handle_commands, is_client_command, remove_client_commands, next_command,
  recompute_subscribe_filter, resubscribe, remove_client, read_mux_message,
}

-- No client, or one in the list.
abbrev pub IsListed : List ℕ → Option ℕ → Type 0
IsListed clients none = Unit
IsListed clients (some i) = listed i clients ≡ true

abbrev pub IsServed : Clients → Type 0
IsServed m = All (λ c. IsListed m.clients c.client) m.commands

All-map :
    {A : Type 0} {P Q : A → Type 0} (f : (a : A) → P a → Q a) (xs : List A) → All P xs → All Q xs
All-map f [] h = tt
All-map f (x ∷ xs) (h, hs) = (f x h, All-map f xs hs)

listed-append : (i : ℕ) (is js : List ℕ) → listed i is ≡ true → listed i (is ++ js) ≡ true
unfolding listed
listed-append i [] js h = absurd (ground arith)
listed-append i (k ∷ ks) js h = elim (Bool-cases (k == i)) [
  | inl e ↦ ground arith
  | inr e ↦ let rest = listed-append i ks js (ground arith) in ground arith
]

listed-erase :
    (i j : ℕ) (is : List ℕ) → (j == i) ≡ false → listed j is ≡ true → listed j (erase i is) ≡ true
unfolding listed erase
listed-erase i j [] other h = absurd (ground arith)
listed-erase i j (k ∷ ks) other h = elim (Bool-cases (k == i)) [
  | inl e ↦ let same = ==→eq k i e in rw e (ground arith)
  | inr e ↦ rw e (elim (Bool-cases (k == j)) [
    | inl same ↦ ground arith
    | inr differ ↦ let ih = listed-erase i j ks other (ground arith) in ground arith
  ])
]

add_client-IsServed : (i : ℕ) (m : Clients) → IsServed m → IsServed (add_client i m)
unfolding add_client
add_client-IsServed i m h = All-map (λ c. IsListed-append m.clients (i ∷ []) c.client) m.commands h
  where
    IsListed-append : (is js : List ℕ) (c : Option ℕ) → IsListed is c → IsListed (is ++ js) c
    IsListed-append is js none h = tt
    IsListed-append is js (some k) h = listed-append k is js h

handle_commands-IsServed :
    (msgs : List MuxMessage) (m : Clients)
    → IsListed m.clients m.active_client
    → IsServed m
    → IsServed (handle_commands msgs m)
unfolding handle_commands handle_command
handle_commands-IsServed [] m active h = h
handle_commands-IsServed (msg ∷ msgs) m active h =
    handle_commands-IsServed msgs (handle_command msg m) active
      (All-append (λ c. IsListed m.clients c.client) m.commands _ h (active, tt))

handle_commands-clients :
    (msgs : List MuxMessage) (m : Clients) → (handle_commands msgs m).clients ≡ m.clients
unfolding handle_commands handle_command
handle_commands-clients [] m = refl
handle_commands-clients (msg ∷ msgs) m = handle_commands-clients msgs (handle_command msg m)

-- What is left of the queue without the commands of client `i`.
IsListed-erase :
    (i : ℕ) (is : List ℕ) (c : ClientCommand)
    → is_client_command i c ≡ false
    → IsListed is c.client
    → IsListed (erase i is) c.client
IsListed-erase i is c other h = by_client c.client other h
  where
    by_client :
        (client : Option ℕ)
        → (elim client [ none ↦ false | some j ↦ j == i ]) ≡ false
        → IsListed is client
        → IsListed (erase i is) client
    by_client none other h = tt
    by_client (some j) other h = listed-erase i j is other h

remove_client_commands-All :
    (i : ℕ) (is : List ℕ) (cs : List ClientCommand)
    → All (λ c. IsListed is c.client) cs
    → All (λ c. IsListed (erase i is) c.client) (remove_client_commands i cs)
unfolding remove_client_commands
remove_client_commands-All i is [] h = tt
remove_client_commands-All i is (c ∷ cs) (h, hs) = elim (Bool-cases (is_client_command i c)) [
  | inl e ↦ rw e (remove_client_commands-All i is cs hs)
  | inr e ↦ rw e (IsListed-erase i is c e h, remove_client_commands-All i is cs hs)
]

find_client_by_socket-IsListed :
    (sock : ℕ) (m : Clients) → IsListed m.clients (find_client_by_socket sock m)
unfolding find_client_by_socket
find_client_by_socket-IsListed sock m = elim (Bool-cases (listed sock m.clients)) [
  | inl e ↦ rw (e, IsListed) e
  | inr e ↦ rw (e, IsListed) tt
]

module _ (spare : ℕ) (get_subscription : ℕ → ℕ) where
  remove_client-IsServed :
      (i : ℕ) (m : Clients) → IsServed m → IsServed (remove_client spare get_subscription i m)
  unfolding remove_client recompute_subscribe_filter resubscribe
  remove_client-IsServed i m h =
      let left = record m {
        commands = remove_client_commands i m.commands;
        clients = erase i m.clients;
      } in
      let kept = remove_client_commands-All i m.clients m.commands h in
      let (shrunk, changed) = recompute_subscribe_filter spare get_subscription left in
      elim (Bool-cases (listed i m.clients)) [
        | inr e ↦ rw (e, IsServed) h
        | inl e ↦ elim (Bool-cases changed) [
          | inr c ↦ rw (e, IsServed) (rw (c, IsServed) kept)
          | inl c ↦
              rw (e, IsServed)
                (rw (c, IsServed)
                  (All-append (λ c. IsListed (erase i m.clients) c.client)
                    (remove_client_commands i m.commands) _ kept (tt, tt)))
        ]
      ]

  read_mux_message-IsServed :
      (sock : ℕ) (msgs : List MuxMessage) (len : ℕ) (m : Clients)
      → IsServed m
      → IsServed (read_mux_message spare get_subscription sock msgs len m)
  unfolding read_mux_message
  read_mux_message-IsServed sock msgs len m h = elim (Option-cases (find_client_by_socket sock m)) [
    | inl e ↦ rw (e, read_mux_message, IsServed) h
    | inr (i, e) ↦
        let n = handle_commands msgs (record m { active_client = some i }) in
        let served : IsServed n =
          handle_commands-IsServed msgs (record m { active_client = some i })
            (subst (IsListed m.clients) e (find_client_by_socket-IsListed sock m)) h in
        rw (e, read_mux_message, IsServed)
          (elim (Bool-cases (len == 0)) [
            | inl z ↦ rw (z, IsServed) (remove_client-IsServed i n served)
            | inr z ↦ rw (z, IsServed) served
          ])
  ]

-- What the variant's threads do with its list and queue.
pub data Operation : Type 0 where
  adds : ℕ → Operation
  reads : (ℕ → ℕ) → ℕ → List MuxMessage → ℕ → Operation
  takes closes : Operation

unfoldable pub operate : ℕ → Operation → Clients → Clients
operate spare (adds i) m = add_client i m
operate spare (reads get_subscription sock msgs len) m =
    read_mux_message spare get_subscription sock msgs len m
operate spare takes m = (next_command m).0
operate spare closes m = close m

unfoldable pub operations : ℕ → List Operation → Clients → Clients
unfolding operate
operations spare [] m = m
operations spare (o ∷ os) m = operations spare os (operate spare o m)

next_command-IsServed :
    (cs : List ClientCommand) (m : Clients)
    → m.commands ≡ cs
    → IsServed m
    → IsServed (next_command m).0
unfolding next_command
next_command-IsServed [] m e h = rw (e, IsServed) tt
next_command-IsServed (c ∷ cs) m e h =
    let (first, rest) = subst (All (λ c. IsListed m.clients c.client)) e h in rw (e, IsServed) rest

operate-IsServed :
    (spare : ℕ) (o : Operation) (m : Clients) → IsServed m → IsServed (operate spare o m)
unfolding operate close
operate-IsServed spare (adds i) m h = add_client-IsServed i m h
operate-IsServed spare (reads get_subscription sock msgs len) m h =
    read_mux_message-IsServed spare get_subscription sock msgs len m h
operate-IsServed spare takes m h = next_command-IsServed m.commands m refl h
operate-IsServed spare closes m h = tt

operations_from :
    (spare : ℕ) (os : List Operation) (m : Clients) → IsServed m → IsServed (operations spare os m)
unfolding operations
operations_from spare [] m h = h
operations_from spare (o ∷ os) m h =
    operations_from spare os (operate spare o m) (operate-IsServed spare o m h)

-- In the .NET variant, whatever clients are added, read from and removed, and however its queue is
-- worked off: a queued command is of no client or of one in the list, so `sendCommands` never meets
-- a client that was deleted.
pub operations-IsServed :
    (spare prev_filter : ℕ) (os : List Operation)
    → IsServed (operations spare os (new_clients prev_filter))
unfolding new_clients
operations-IsServed spare prev_filter os = operations_from spare os (new_clients prev_filter) tt
