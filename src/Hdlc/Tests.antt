-- ===== src/Hdlc/Tests.antt =====
-- Runs of the HDLC code at concrete inputs, and the theorems about it at inputs that meet their
-- hypotheses.
use serialmux.Prelude.{ℕ, ◌≡◌, ◌≢◌, refl, inl, ◌↔◌, true, false, List, [], ◌∷◌, ◌++◌, arith, All}
use serialmux.Hdlc.Table.{fcs_entry}
use serialmux.Hdlc.Transparency.{encode_hdlc_transparent}
use serialmux.Hdlc.Delivery.{IsValid, Delivers, add_byte-Delivers_iff}
use serialmux.Hdlc.Reference.{crc16_x25, compute_fcs16-crc16_x25}
use serialmux.Hdlc.RoundTrip.{packets, feed-packets}
use serialmux.Hdlc.Detection.{compute_fcs16_detects}
use serialmux.Hdlc.{
  Chdlc, hdlc_data, hdlc_packet_complete, hdlc_padding, is_escape, create, add_byte, feed,
  encode_hdlc, compute_fcs16, init_fcs16, compute_loop, close_fcs16, append_hdlc,
}

-- The check value of CRC-16/X-25, of the text "123456789".
check_value :
    compute_fcs16 (0x31 ∷ 0x32 ∷ 0x33 ∷ 0x34 ∷ 0x35 ∷ 0x36 ∷ 0x37 ∷ 0x38 ∷ 0x39 ∷ []) ≡ 0x906e
unfolding compute_fcs16 compute_loop close_fcs16 fcs_entry
check_value = refl

abbrev hello : List ℕ
hello = 0x7e ∷ 1 ∷ 0x7d ∷ []

abbrev idle : Chdlc
idle = record {
  handler = true;
  state = hdlc_packet_complete;
  buffer = [];
  running_fcs = init_fcs16;
}

created : create 1024 true hdlc_data 7 ≡ idle
unfolding create
created = refl

compute_fcs16-crc16_x25_example : compute_fcs16 hello ≡ crc16_x25 hello
compute_fcs16-crc16_x25_example = compute_fcs16-crc16_x25 hello (omega arith)

compute_fcs16_detects_example :
    compute_fcs16 (hello ++ 7 ∷ 8 ∷ 9 ∷ []) ≢ compute_fcs16 (hello ++ 8 ∷ 7 ∷ 9 ∷ [])
compute_fcs16_detects_example =
    compute_fcs16_detects hello (9 ∷ []) 7 8 8 7 (omega arith) (omega arith) (omega arith)
      (inl (omega arith))

encode_hdlc_transparent_example :
    (body : List ℕ) × (encode_hdlc hello ≡ hdlc_padding ∷ (body ++ hdlc_padding ∷ []))
    × All (λ b. b ≢ hdlc_padding) body
encode_hdlc_transparent_example = encode_hdlc_transparent hello (omega arith)

encoded : encode_hdlc hello ≡ 0x7e ∷ 0x7d ∷ 0x5e ∷ 1 ∷ 0x7d ∷ 0x5d ∷ 0xb5 ∷ 0xe7 ∷ 0x7e ∷ []
unfolding encode_hdlc append_hdlc compute_fcs16 compute_loop close_fcs16 fcs_entry
encoded = refl

idle-IsValid : IsValid idle
unfolding compute_loop
idle-IsValid = record { checked = refl; bytes = tt }

abbrev full : Chdlc
full = record {
  handler = true;
  state = hdlc_data;
  buffer = hello ++ 0xb5 ∷ 0xe7 ∷ [];
  running_fcs = 0xf0b8;
}

full-IsValid : IsValid full
unfolding compute_loop fcs_entry
full-IsValid = record { checked = refl; bytes = omega arith }

add_byte-Delivers_iff_example :
    ((add_byte full hdlc_padding).1 ≡ hello ∷ [])
    ↔ ((is_escape full.state ≡ false) × (hdlc_padding ≡ hdlc_padding) × Delivers full hello [])
add_byte-Delivers_iff_example = add_byte-Delivers_iff full hdlc_padding hello [] full-IsValid

feed-packets_example : (feed idle (packets (hello ∷ (5 ∷ []) ∷ []))).1 ≡ hello ∷ (5 ∷ []) ∷ []
feed-packets_example =
    feed-packets idle (hello ∷ (5 ∷ []) ∷ []) refl refl (omega arith)
      ((omega arith, omega arith), ((omega arith, omega arith), tt))
