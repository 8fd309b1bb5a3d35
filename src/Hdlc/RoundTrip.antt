-- ===== src/Hdlc/RoundTrip.antt =====
-- The parser gives back what the generator was given, packet after packet.
use serialmux.Prelude.{
  ℕ, ◌≤◌, ◌<◌, ◌≡◌, refl, ap, sym, subst, ◌∙◌, true, false, List, [], ◌∷◌, ◌++◌, append-nil, arith,
  length, All,
}
use serialmux.Hdlc.Fcs.{AreBytes}
use serialmux.Hdlc.Transparency.{
  with_fcs, escaped, encode_hdlc_eq, take_all, feed_then, Absorbed, with_fcs-AreBytes,
}
use serialmux.Hdlc.Delivery.{IsValid, Delivers, flag_silent, flag_resets, add_byte-Delivers_iff}
use serialmux.Hdlc.{
  Chdlc, hdlc_packet_complete, hdlc_padding, encode_hdlc, init_fcs16, is_escape, reset, add_byte,
  feed, compute_loop,
}

abbrev after_flag : Chdlc → Chdlc
after_flag p = (add_byte p hdlc_padding).0

feed_flag :
    (p : Chdlc)
    → is_escape p.state ≡ false
    → feed p (hdlc_padding ∷ []) ≡ (reset p, (add_byte p hdlc_padding).1)
unfolding feed
feed_flag p h =
    ap (λ (q : Chdlc). (q, (add_byte p hdlc_padding).1 ++ [])) (flag_resets p h)
    ∙ ap (λ t. (reset p, t)) (append-nil _)

reset_same :
    (p q : Chdlc) (fs gs : List (List ℕ))
    → q.handler ≡ p.handler
    → gs ≡ fs
    → ◌≡◌ {A = Chdlc × List (List ℕ)} (reset q, gs) (reset p, fs)
unfolding reset
reset_same p q fs gs e d = λ i. (
  record { handler = e i; state = hdlc_packet_complete; buffer = []; running_fcs = init_fcs16 },
  d i,
)

module _ (p : Chdlc) (src : List ℕ) (bytes : AreBytes src) where
  Absorbed-IsValid : (q : Chdlc) → Absorbed (reset p) (with_fcs src) q → IsValid q
  Absorbed-IsValid q a = record {
    checked = a.checked ∙ unfold reset in ap (compute_loop init_fcs16) (sym held);
    bytes = subst AreBytes (sym held) (with_fcs-AreBytes src bytes);
  }
    where
      held : q.buffer ≡ with_fcs src
      held = a.grown ∙ unfold reset in refl

  -- What follows the opening flag.
  feed_body :
      p.handler ≡ true
      → 0 < length src
      → feed (reset p) (escaped (with_fcs src) ++ hdlc_padding ∷ []) ≡ (reset p, src ∷ [])
  feed_body wanted h =
      let (q, e, a) = take_all (reset p) (with_fcs src) (unfold reset in refl) in
      let delivers : Delivers q src [] = record {
        alone = refl;
        wanted = a.kept ∙ unfold reset in wanted;
        nonempty = h;
        held = a.grown ∙ unfold reset in refl;
      } in
      let frames : (add_byte q hdlc_padding).1 ≡ src ∷ [] =
        (add_byte-Delivers_iff q hdlc_padding src [] (Absorbed-IsValid q a)).1
          (a.plain, refl, delivers) in
      feed_then (reset p) q (reset p) (escaped (with_fcs src)) (hdlc_padding ∷ []) [] (src ∷ []) e
        (feed_flag q a.plain ∙ reset_same p q (src ∷ []) _ (a.kept ∙ unfold reset in refl) frames)

-- A parser outside an escape, with a handler, that is fed the packet of a non-empty byte string
-- hands on first what a padding byte alone makes it hand on, then the string, and is reset.
pub feed-encode_hdlc :
    (p : Chdlc) (src : List ℕ)
    → is_escape p.state ≡ false
    → p.handler ≡ true
    → AreBytes src
    → 0 < length src
    → feed p (encode_hdlc src) ≡ (reset p, (add_byte p hdlc_padding).1 ++ src ∷ [])
feed-encode_hdlc p src plain wanted bytes h =
    ap (feed p) (encode_hdlc_eq src bytes)
    ∙ feed_then p (reset p) (reset p) (hdlc_padding ∷ [])
        (escaped (with_fcs src) ++ hdlc_padding ∷ []) (add_byte p hdlc_padding).1 (src ∷ [])
        (feed_flag p plain) (feed_body p src bytes wanted h)

-- The packets of several messages, one after the other.
pub packets : List (List ℕ) → List ℕ
packets [] = []
packets (src ∷ srcs) = encode_hdlc src ++ packets srcs

-- The packets of non-empty byte strings, fed one after the other to a parser outside an escape that
-- has a handler and holds at most two bytes, make it hand on exactly these strings, in order.
pub feed-packets :
    (p : Chdlc) (srcs : List (List ℕ))
    → is_escape p.state ≡ false
    → p.handler ≡ true
    → length p.buffer ≤ 2
    → All (λ src. AreBytes src × (0 < length src)) srcs
    → (feed p (packets srcs)).1 ≡ srcs
unfolding packets
feed-packets p [] plain wanted short h = unfold feed in refl
feed-packets p (src ∷ srcs) plain wanted short ((bytes, nonempty), h) =
    let first : feed p (encode_hdlc src) ≡ (reset p, src ∷ []) =
      feed-encode_hdlc p src plain wanted bytes nonempty
      ∙ ap (λ t. (reset p, t ++ src ∷ [])) (flag_silent p plain short) in
    let rest : (feed (reset p) (packets srcs)).1 ≡ srcs =
      feed-packets (reset p) srcs (unfold reset in refl) (unfold reset in wanted)
        (unfold reset in omega arith) h in
    let later : Chdlc = (feed (reset p) (packets srcs)).0 in
    ap (λ (r : Chdlc × List (List ℕ)). r.1)
      (feed_then p (reset p) later (encode_hdlc src) (packets srcs) (src ∷ []) srcs first
        (λ i. (later, rest i)))
