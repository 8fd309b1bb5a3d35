-- ===== src/Clr/Hello.antt =====
-- The .NET listener and the Boost client agree on a client's hello.
use serialmux.Prelude.{
  ℕ, zero, suc, ◌+◌, ◌<◌, ◌≤◌, ◌≡◌, ◌%◌, ◌^◌, refl, ap, sym, ◌∙◌, true, Bool-cases, inl, inr, List,
  [], ◌∷◌, length, take, get_or, length-take, ◌==◌, arith, ne→==, ==→eq, ==→ne, ◌≢◌, if◌then◌else◌,
}
use serialmux.Common.{mux_hello, ok_code, err_invalid_cmd}
use serialmux.Mux.{MuxMessage, serialize, size, word_bytes}
use serialmux.Client.{BoostClient, authentication_len}
use serialmux.Client
use serialmux.Clr.{
  sends, adds_client, closes, brings, check_auth, parse_hello, build_hello_response, greet,
}

-- The nine bytes before a message's payload.
abbrev header : ℕ → ℕ → ℕ → ℕ → List ℕ → List ℕ
header a b c d payload = 0xa7 ∷ 0x40 ∷ 0xa0 ∷ 0xf5 ∷ a ∷ b ∷ c ∷ d ∷ mux_hello ∷ payload

payload_at :
    (a b c d i : ℕ) (payload : List ℕ)
    → get_or (header a b c d payload) (10 + i) 0 ≡ get_or payload (suc i) 0
payload_at a b c d i payload =
    ap (λ k. get_or (header a b c d payload) k 0)
      {y = suc (suc (suc (suc (suc (suc (suc (suc (suc (suc i)))))))))} (omega arith)

check_auth_same :
    (rounds i result a b c d : ℕ) (expected payload : List ℕ)
    → check_auth rounds i 10 expected (header a b c d payload) result
      ≡ Client.check_auth rounds i expected payload result
unfolding check_auth Client.check_auth
check_auth_same zero i result a b c d expected payload = refl
check_auth_same (suc rounds) i result a b c d expected payload =
    rw (payload_at a b c d i payload) (check_auth_same rounds (suc i) _ a b c d expected payload)

take_all : {A : Type 0} (n : ℕ) (xs : List A) → length xs ≤ n → take n xs ≡ xs
take_all zero [] h = refl
take_all zero (x ∷ xs) h = absurd (omega arith)
take_all (suc n) [] h = refl
take_all (suc n) (x ∷ xs) h = ap (λ t. x ∷ t) (take_all n xs (omega arith))

-- A hello of another length is refused, here and there.
parse_hello_other :
    (version len : ℕ) (expected bytes : List ℕ)
    → len ≢ 18
    → parse_hello version expected bytes len ≡ err_invalid_cmd
unfolding parse_hello
parse_hello_other version len expected bytes other = rw (ne→== len 18 other) refl

Client-parse_hello_other :
    (client : BoostClient) (bytes : List ℕ) (len : ℕ)
    → len ≢ 9
    → Client.parse_hello client bytes len ≡ err_invalid_cmd
unfolding Client.parse_hello
Client-parse_hello_other client bytes len other = rw (ne→== len 9 other) refl

parse_hello_nine :
    (client : BoostClient) (a b c d : ℕ) (payload : List ℕ) (m n : ℕ)
    → m ≡ 18
    → n ≡ 9
    → parse_hello client.protocol_version client.expected_auth (header a b c d payload) m
      ≡ Client.parse_hello client payload n
unfolding parse_hello Client.parse_hello
parse_hello_nine client a b c d payload m n em en =
    rw em (rw en (check_auth_same 8 0 _ a b c d client.expected_auth payload))

-- Of a message that fits, the verdict is that of the Boost client.
parse_hello_same :
    (client : BoostClient) (a b c d : ℕ) (payload : List ℕ)
    → length payload < 65536
    → parse_hello client.protocol_version client.expected_auth
        (take 256 (header a b c d payload))
        (length (take 256 (header a b c d payload)))
      ≡ Client.parse_hello client payload (length payload % 2 ^ 16)
parse_hello_same client a b c d payload short = elim (Bool-cases (length payload == 9)) [
  | inl e ↦
      let nine = ==→eq (length payload) 9 e in
      let whole = take_all 256 (header a b c d payload) (omega arith) in
      ap (λ bytes. parse_hello client.protocol_version client.expected_auth bytes (length bytes))
        whole
      ∙ parse_hello_nine client a b c d payload _ _ (omega arith) (omega arith)
  | inr e ↦
      let other = ==→ne (length payload) 9 e in
      let cut = length-take 256 (header a b c d payload) in
      parse_hello_other client.protocol_version _ client.expected_auth _
        (λ same. other (omega arith))
      ∙ sym (Client-parse_hello_other client payload _ (λ same. other (omega arith)))
]

-- What the listener does with a hello message, of the length of a message and whatever its number
-- is, if its answer can be sent, is what the Boost client does: it gives the same verdict, in the
-- same bytes, and takes the client in or closes its socket.
pub greet-hello :
    (client : BoostClient) (msg : MuxMessage)
    → msg.type ≡ mux_hello
    → length msg.payload < 65536
    → greet client.protocol_version client.expected_auth true (brings (serialize msg)) ≡ (
        let result = Client.parse_hello client msg.payload (size msg) in
        sends (Client.build_hello_response client result)
        ∷ (if result == ok_code then adds_client ∷ [] else closes ∷ []))
unfolding greet serialize word_bytes size build_hello_response Client.build_hello_response
greet-hello client msg hello short =
    ap
      (λ r.
        sends (build_hello_response client.protocol_version r)
        ∷ (if r == ok_code then adds_client ∷ [] else closes ∷ []))
      (ap
          (λ t.
            parse_hello client.protocol_version client.expected_auth
              (take 256 (serialize (record msg { type = t })))
              (length (take 256 (serialize (record msg { type = t })))))
          hello
        ∙ parse_hello_same client _ _ _ _ msg.payload short)
