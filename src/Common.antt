-- ===== src/Common.antt =====
-- serial_mux/Common.h, serial_mux/Common.cpp, serial_mux/Version.h and serial_mux/Version.cpp: the
-- command numbers, and how subscription filters go over the wire. An `int` that holds a filter is
-- its 32-bit pattern, a number below 2 ^ 32.
pub mod Filters
pub mod Tests
use serialmux.Prelude.{
  ℕ, ◌+◌, ◌*◌, ◌/◌, ◌%◌, ◌^◌, bit_and, bit_or, Bool, not, Option, none, some, List, [], ◌∷◌, length,
  get_or, set, ltb, leb, ◌==◌, if◌then◌else◌,
}

-- `ECommands`.
abbrev pub hello : ℕ
hello = 1

abbrev pub hello_response : ℕ
hello_response = 2

abbrev pub mgr_hello : ℕ
mgr_hello = 3

abbrev pub notification : ℕ
notification = 20

abbrev pub subscribe : ℕ
subscribe = 22

-- `EMuxCommands`.
abbrev pub mux_hello : ℕ
mux_hello = 1

abbrev pub mux_info : ℕ
mux_info = 2

-- `ErrorCode`; `OK` is 0.
abbrev pub ok_code : ℕ
ok_code = 0

abbrev pub err_invalid_cmd : ℕ
err_invalid_cmd = 1

abbrev pub err_invalid_auth : ℕ
err_invalid_auth = 3

abbrev pub err_unsupported_version : ℕ
err_unsupported_version = 4

abbrev pub err_command_timeout : ℕ
err_command_timeout = 5

-- `isPicardApiCommand`.
unfoldable pub is_picard_api_command : ℕ → Bool
is_picard_api_command type = ltb notification type

-- `SMuxVersion` and `getVersion`, with the build number of Build.h.
pub record MuxVersion : Type 0 where
  pub major : ℕ
  pub minor : ℕ
  pub release : ℕ
  pub build : ℕ

unfoldable pub get_version : MuxVersion
get_version = record { major = 1; minor = 1; release = 2; build = 17 }

-- `muxInfoPayload`.
unfoldable pub mux_info_payload : ℕ → List ℕ
unfolding get_version
mux_info_payload protocol_version =
    protocol_version
    ∷ get_version.major
    ∷ get_version.minor
    ∷ get_version.release
    ∷ bit_and (get_version.build / 2 ^ 8) 0xff
    ∷ bit_and get_version.build 0xff
    ∷ []

-- `SubscriptionParams`.
pub record SubscriptionParams : Type 0 where
  pub filter : ℕ
  pub unreliable : ℕ

abbrev pub no_subscription : SubscriptionParams
no_subscription = record { filter = 0; unreliable = 0 }

-- The writes of `filterToVector`, in a vector of at least eight bytes.
unfoldable pub write_filter : SubscriptionParams → List ℕ → List ℕ
write_filter params bytes =
    let b0 = set bytes 0 (bit_and (params.filter / 2 ^ 24) 0xff) in
    let b1 = set b0 1 (bit_and (params.filter / 2 ^ 16) 0xff) in
    let b2 = set b1 2 (bit_and (params.filter / 2 ^ 8) 0xff) in
    let b3 = set b2 3 (bit_and params.filter 0xff) in
    let b4 = set b3 4 (bit_and (params.unreliable / 2 ^ 24) 0xff) in
    let b5 = set b4 5 (bit_and (params.unreliable / 2 ^ 16) 0xff) in
    let b6 = set b5 6 (bit_and (params.unreliable / 2 ^ 8) 0xff) in
    set b6 7 (bit_and params.unreliable 0xff)

-- `filterToVector`. `reserve` leaves the vector's size as it is: `none` is a write behind the vector's
-- end, which C++ leaves undefined.
unfoldable pub filter_to_vector : SubscriptionParams → List ℕ → Option (List ℕ)
unfolding write_filter
filter_to_vector params bytes =
    if ltb (length bytes) 8 then none else some (write_filter params bytes)

-- Four bytes as an `int`, the highest first.
pub join_bytes : ℕ → ℕ → ℕ → ℕ → ℕ
join_bytes d0 d1 d2 d3 =
    bit_or
      (bit_or (bit_or (bit_and (d0 * 2 ^ 24 % 2 ^ 32) 0xff000000) (bit_and (d1 * 2 ^ 16) 0xff0000))
        (bit_and (d2 * 2 ^ 8) 0xff00))
      (bit_and d3 0xff)

-- `vectorToFilter`. The first four bytes are read without a test: `none` is a read behind the
-- vector's end, which C++ leaves undefined.
unfoldable pub vector_to_filter : List ℕ → Option SubscriptionParams
unfolding join_bytes
vector_to_filter bytes =
    let at = λ (i : ℕ). get_or bytes i 0 in
    if ltb (length bytes) 4
    then none
    else some (record {
      filter = join_bytes (at 0) (at 1) (at 2) (at 3);
      unreliable = if leb 8 (length bytes) then join_bytes (at 4) (at 5) (at 6) (at 7) else 0;
    })

-- `subscribeFilterMatch`. `none` is a shift by the width of an `int` or more, which C++ leaves
-- undefined.
unfoldable pub subscribe_filter_match : SubscriptionParams → ℕ → Option Bool
subscribe_filter_match params notif_type =
    if ltb notif_type 32 then some (not (bit_and params.filter (2 ^ notif_type) == 0)) else none
