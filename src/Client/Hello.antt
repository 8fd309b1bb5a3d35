-- ===== src/Client/Hello.antt =====
-- `parseHello`: when a client's hello is accepted, and which error it gets otherwise.
use serialmux.Prelude.{
  ℕ, zero, suc, ◌≡◌, ◌≢◌, refl, ap, sym, ◌∙◌, Bool-cases, inl, inr, List, [], ◌∷◌, length, ◌==◌,
  arith, if◌then◌else◌, eq→==, ==→eq, ==→ne, ℕ_discrete,
}
use serialmux.Common.{ok_code, err_invalid_cmd, err_invalid_auth, err_unsupported_version}
use serialmux.Client.{BoostClient, expected_hello_len, authentication_len, check_auth, parse_hello}

-- The answers to a hello, each with what the hello holds.
pub data Verdict (c : BoostClient) (bytes : List ℕ) (result : ℕ) : Type 0 where
  accepted :
      bytes ≡ c.protocol_version ∷ c.expected_auth → result ≡ ok_code → Verdict c bytes result
  wrong_length :
      length bytes ≢ expected_hello_len → result ≡ err_invalid_cmd → Verdict c bytes result
  wrong_token :
      (version : ℕ) (token : List ℕ)
      → bytes ≡ version ∷ token
      → length token ≡ authentication_len
      → token ≢ c.expected_auth
      → result ≡ err_invalid_auth
      → Verdict c bytes result
  wrong_version :
      (version : ℕ)
      → bytes ≡ version ∷ c.expected_auth
      → version ≢ c.protocol_version
      → result ≡ err_unsupported_version
      → Verdict c bytes result

-- The loop over tokens that are held as lists of the same length.
check_lists : List ℕ → List ℕ → ℕ → ℕ
check_lists [] ys result = result
check_lists (x ∷ xs) [] result = result
check_lists (x ∷ xs) (y ∷ ys) result =
    check_lists xs ys (if x == y then result else err_invalid_auth)

check_lists_differ : (xs ys : List ℕ) → check_lists xs ys err_invalid_auth ≡ err_invalid_auth
unfolding check_lists
check_lists_differ [] ys = refl
check_lists_differ (x ∷ xs) [] = refl
check_lists_differ (x ∷ xs) (y ∷ ys) = elim (Bool-cases (x == y)) [
  | inl e ↦ rw e (check_lists_differ xs ys)
  | inr e ↦ rw e (check_lists_differ xs ys)
]

check_lists_same : (xs : List ℕ) (result : ℕ) → check_lists xs xs result ≡ result
unfolding check_lists
check_lists_same [] result = refl
check_lists_same (x ∷ xs) result = rw (eq→== x x refl) (check_lists_same xs result)

check_lists_ne :
    (xs ys : List ℕ) (result : ℕ)
    → length xs ≡ length ys
    → xs ≢ ys
    → check_lists xs ys result ≡ err_invalid_auth
unfolding check_lists
check_lists_ne [] [] result l h = absurd (h refl)
check_lists_ne [] (y ∷ ys) result l h = absurd (omega arith)
check_lists_ne (x ∷ xs) [] result l h = absurd (omega arith)
check_lists_ne (x ∷ xs) (y ∷ ys) result l h = elim (Bool-cases (x == y)) [
  | inl e ↦ rw e (check_lists_ne xs ys result (omega arith) (λ same. h (cc (==→eq x y e))))
  | inr e ↦ rw e (check_lists_differ xs ys)
]

check_auth-cons :
    (rounds i x y : ℕ) (xs ys : List ℕ) (result : ℕ)
    → check_auth rounds (suc i) (x ∷ xs) (y ∷ ys) result ≡ check_auth rounds i xs ys result
unfolding check_auth
check_auth-cons zero i x y xs ys result = refl
check_auth-cons (suc rounds) i x y xs ys result = check_auth-cons rounds (suc i) x y xs ys _

-- The loop over indices is the one over lists.
check_auth-check_lists :
    (v : ℕ) (xs ys : List ℕ) (result : ℕ)
    → length xs ≡ length ys
    → check_auth (length xs) 0 xs (v ∷ ys) result ≡ check_lists xs ys result
unfolding check_auth check_lists
check_auth-check_lists v [] ys result l = refl
check_auth-check_lists v (x ∷ xs) [] result l = absurd (omega arith)
check_auth-check_lists v (x ∷ xs) (y ∷ ys) result l =
    let next = if x == y then result else err_invalid_auth in
    check_auth-cons (length xs) 0 x v xs (y ∷ ys) next
    ∙ check_auth-check_lists y xs ys next (omega arith)

tokens-discrete : Discrete (List ℕ)
tokens-discrete = hlevel ℕ_discrete

module _ (c : BoostClient) (v : ℕ) (token : List ℕ)
    (known : length c.expected_auth ≡ authentication_len)
    (long : length token ≡ authentication_len) where
  abbrev versioned : ℕ
  versioned = if v == c.protocol_version then ok_code else err_unsupported_version

  parse_hello-check_lists :
      parse_hello c (v ∷ token) (length (v ∷ token)) ≡ check_lists c.expected_auth token versioned
  unfolding parse_hello
  parse_hello-check_lists = rw (eq→== (length (v ∷ token)) 9 (omega arith)) (
      ap (λ n. check_auth n 0 c.expected_auth (v ∷ token) versioned) (sym known)
      ∙ check_auth-check_lists v c.expected_auth token versioned (omega arith))

  full_verdict : Verdict c (v ∷ token) (parse_hello c (v ∷ token) (length (v ∷ token)))
  full_verdict = elim (tokens-discrete token c.expected_auth) [
    | no differ ↦ wrong_token v token refl long differ (
        parse_hello-check_lists
        ∙ check_lists_ne c.expected_auth token versioned (omega arith) (λ e. differ (sym e)))
    | yes same ↦ elim (Bool-cases (v == c.protocol_version)) [
      | inl e ↦ accepted (λ i. ==→eq v c.protocol_version e i ∷ same i) (result same ∙ rw e refl)
      | inr e ↦
          wrong_version v (ap (◌∷◌ v) same) (==→ne v c.protocol_version e) (result same ∙ rw e refl)
    ]
  ]
    where
      result : token ≡ c.expected_auth → parse_hello c (v ∷ token) (length (v ∷ token)) ≡ versioned
      result same =
          parse_hello-check_lists
          ∙ ap (λ t. check_lists c.expected_auth t versioned) same
          ∙ check_lists_same c.expected_auth versioned

-- A hello is accepted exactly if it is the client's protocol version followed by the expected
-- token, which has eight bytes. Else the answer says, in this order, that the length is not nine,
-- that the token differs (whatever the version is), or that the version does.
pub parse_hello_verdict :
    (c : BoostClient) (bytes : List ℕ)
    → length c.expected_auth ≡ authentication_len
    → Verdict c bytes (parse_hello c bytes (length bytes))
unfolding parse_hello
parse_hello_verdict c [] known = wrong_length (λ e. omega arith) refl
parse_hello_verdict c (v ∷ token) known = elim (Bool-cases (length (v ∷ token) == 9)) [
  | inl e ↦ full_verdict c v token known (omega (arith, ==→eq (length (v ∷ token)) 9 e))
  | inr e ↦ wrong_length (==→ne (length (v ∷ token)) 9 e) (rw e refl)
]
