-- ===== src/Manager/Members.antt =====
-- serial_mux/BoostClientManager.cpp: who stands in the manager's list, and whose commands are queued.
use serialmux.Prelude.{
  ℕ, ◌≤◌, ◌<◌, ◌≡◌, refl, ap, sym, subst, ◌∙◌, ◌⊎◌, Bool, true, false, Bool-cases, inl, inr, Option,
  none, some, List, [], ◌∷◌, All, ◌==◌, arith, ==→eq,
}
use serialmux.Common.{subscribe}
use serialmux.Subscriber.{Subscriber}
use serialmux.Client.{InitState, waiting, authenticated, bad_init, closed, BoostClient}
use serialmux.Manager.{ClientResult, ClientCommand, no_command, ClientManager, listed}
use serialmux.Manager.Loop.{
  Phase, testing, popping, ended, awaiting, with_subscriber, give_up, finish_command,
  deliver_response, command_complete,
}

-- Whether a client is authenticated, or was closed.
abbrev pub is_greeted : InitState → Bool
is_greeted waiting = false
is_greeted authenticated = true
is_greeted bad_init = false
is_greeted closed = true

-- A client that there is, and that is authenticated or closed.
pub record IsMember (next : ℕ) (store : ℕ → BoostClient) (i : ℕ) : Type 0 where
  pub known : i < next
  pub greeted : is_greeted (store i).init_state ≡ true

-- A command of such a client, or a subscribe command of none.
abbrev pub IsFrom : ℕ → (ℕ → BoostClient) → Option ℕ → ℕ → Type 0
IsFrom next store none cmd_type = cmd_type ≡ subscribe
IsFrom next store (some i) cmd_type = IsMember next store i

abbrev pub IsQueued : ℕ → (ℕ → BoostClient) → ClientCommand → Type 0
IsQueued next store c = IsFrom next store c.client c.command.type

abbrev pub IsDistinct : List ℕ → Type 0
IsDistinct [] = Unit
IsDistinct (i ∷ is) = (listed i is ≡ false) × IsDistinct is

-- Such a client, or none.
abbrev pub IsHeld : ℕ → (ℕ → BoostClient) → Option ℕ → Type 0
IsHeld next store none = Unit
IsHeld next store (some i) = IsMember next store i

-- The client whose command the loop waits for.
abbrev pub phase_client : Phase → Option ℕ
phase_client testing = none
phase_client popping = none
phase_client ended = none
phase_client (awaiting cmd i) = cmd.client

-- The clients below `next` are those that there are.
pub record IsSound (next : ℕ) (phase : Phase) (m : ClientManager) : Type 0 where
  pub distinct : IsDistinct m.clients
  pub members : All (IsMember next m.store) m.clients
  pub queued : All (IsQueued next m.store) m.commands.items
  pub current : IsHeld next m.store m.current.client
  pub awaited : IsHeld next m.store (phase_client phase)

All-map {ℓ} :
    {A : Type ℓ} (P Q : A → Type 0) → ((a : A) → P a → Q a) → (xs : List A) → All P xs → All Q xs
All-map P Q f [] h = tt
All-map P Q f (x ∷ xs) (h, hs) = (f x h, All-map P Q f xs hs)

-- Clients that there are stay, and the authenticated ones at most close.
pub record Grows (next later : ℕ) (store after : ℕ → BoostClient) : Type 0 where
  pub more : next ≤ later
  pub still :
      (i : ℕ)
      → i < next
      → is_greeted (store i).init_state ≡ true
      → is_greeted (after i).init_state ≡ true

module _ (next later : ℕ) (store after : ℕ → BoostClient) (g : Grows next later store after) where
  pub IsMember-grows : (i : ℕ) → IsMember next store i → IsMember later after i
  IsMember-grows i h = record {
    known = let m = g.more in let k = h.known in omega arith;
    greeted = g.still i h.known h.greeted;
  }

  IsFrom-grows :
      (client : Option ℕ) (cmd_type : ℕ)
      → IsFrom next store client cmd_type
      → IsFrom later after client cmd_type
  IsFrom-grows none cmd_type h = h
  IsFrom-grows (some i) cmd_type h = IsMember-grows i h

  pub IsHeld-grow : (client : Option ℕ) → IsHeld next store client → IsHeld later after client
  IsHeld-grow none h = h
  IsHeld-grow (some i) h = IsMember-grows i h

  pub members-grow : (is : List ℕ) → All (IsMember next store) is → All (IsMember later after) is
  members-grow is h = All-map (IsMember next store) (IsMember later after) IsMember-grows is h

  pub IsQueued-grow :
      (cs : List ClientCommand) → All (IsQueued next store) cs → All (IsQueued later after) cs
  IsQueued-grow cs h =
      All-map (IsQueued next store) (IsQueued later after)
        (λ c. IsFrom-grows c.client c.command.type) cs h

-- What does not change the list, the queue, and the states of the clients. The current command is
-- the one before, one of `c`, or none.
pub record Keeps (c : Option ℕ) (m n : ClientManager) : Type 0 where
  pub clients_eq : n.clients ≡ m.clients
  pub items_eq : n.commands.items ≡ m.commands.items
  pub states_eq : (i : ℕ) → (n.store i).init_state ≡ (m.store i).init_state
  pub current_cases :
      (n.current.client ≡ m.current.client) ⊎ ((n.current.client ≡ c) ⊎ (n.current.client ≡ none))

current_trans :
    (c x y z : Option ℕ)
    → (y ≡ x) ⊎ ((y ≡ c) ⊎ (y ≡ none))
    → (z ≡ y) ⊎ ((z ≡ c) ⊎ (z ≡ none))
    → (z ≡ x) ⊎ ((z ≡ c) ⊎ (z ≡ none))
current_trans c x y z (inl e) (inl f) = inl (f ∙ e)
current_trans c x y z (inr (inl e)) (inl f) = inr (inl (f ∙ e))
current_trans c x y z (inr (inr e)) (inl f) = inr (inr (f ∙ e))
current_trans c x y z h (inr f) = inr f

pub Keeps-trans : (c : Option ℕ) (m n o : ClientManager) → Keeps c m n → Keeps c n o → Keeps c m o
Keeps-trans c m n o f g = record {
  clients_eq = g.clients_eq ∙ f.clients_eq;
  items_eq = g.items_eq ∙ f.items_eq;
  states_eq = λ i. g.states_eq i ∙ f.states_eq i;
  current_cases =
      current_trans c m.current.client n.current.client o.current.client f.current_cases
        g.current_cases;
}

pub Keeps-Grows :
    (next : ℕ) (c : Option ℕ) (m n : ClientManager) → Keeps c m n → Grows next next m.store n.store
Keeps-Grows next c m n k = record {
  more = omega arith;
  still = λ i b h. ap is_greeted (k.states_eq i) ∙ h;
}

pub Keeps-IsSound :
    (next : ℕ) (c : Option ℕ) (phase later : Phase) (m n : ClientManager)
    → Keeps c m n
    → IsHeld next m.store c
    → (phase_client later ≡ phase_client phase)
      ⊎ ((phase_client later ≡ c) ⊎ (phase_client later ≡ none))
    → IsSound next phase m
    → IsSound next later n
Keeps-IsSound next c phase later m n k held cases s = record {
  distinct = rw k.clients_eq s.distinct;
  members = rw k.clients_eq (members-grow next next m.store n.store grows m.clients s.members);
  queued = rw k.items_eq (IsQueued-grow next next m.store n.store grows m.commands.items s.queued);
  current =
      IsHeld-grow next next m.store n.store grows n.current.client
        (one_of m.current.client n.current.client s.current k.current_cases);
  awaited =
      IsHeld-grow next next m.store n.store grows (phase_client later)
        (one_of (phase_client phase) (phase_client later) s.awaited cases);
}
  where
    grows : Grows next next m.store n.store
    grows = Keeps-Grows next c m n k

    one_of :
        (x y : Option ℕ)
        → IsHeld next m.store x
        → (y ≡ x) ⊎ ((y ≡ c) ⊎ (y ≡ none))
        → IsHeld next m.store y
    one_of x y h (inl e) = subst (IsHeld next m.store) (sym e) h
    one_of x y h (inr (inl e)) = subst (IsHeld next m.store) (sym e) held
    one_of x y h (inr (inr e)) = subst (IsHeld next m.store) (sym e) tt

pub with_subscriber-Keeps :
    (i : ℕ) (t : Subscriber) (c : Option ℕ) (m : ClientManager) → Keeps c m (with_subscriber i t m)
with_subscriber-Keeps i t c m = record {
  current_cases = inl refl;
  clients_eq = refl;
  items_eq = refl;
  states_eq = λ j. elim (Bool-cases (i == j)) [
    | inl e ↦ rw e (ap (λ k. (m.store k).init_state) (==→eq i j e))
    | inr e ↦ rw e refl
  ];
}

pub finish_command-Keeps :
    (result : ClientResult) (cmd : ClientCommand) (m : ClientManager)
    → Keeps cmd.client m (finish_command result cmd m).manager
unfolding finish_command give_up no_command
finish_command-Keeps result cmd m = record {
  current_cases = inr (inr (ground arith));
  clients_eq = ground arith;
  items_eq = ground arith;
  states_eq = λ j. ground arith;
}

pub command_complete-Keeps :
    (cmd_type seq_no code : ℕ) (response : List ℕ) (m : ClientManager)
    → Keeps none m (command_complete cmd_type seq_no code response m).0
unfolding command_complete deliver_response
command_complete-Keeps cmd_type seq_no code response m = record {
  current_cases = inl (ground arith);
  clients_eq = ground arith;
  items_eq = ground arith;
  states_eq = λ j. ground arith;
}
