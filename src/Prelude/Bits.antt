-- ===== src/Prelude/Bits.antt =====
-- Laws of `&`, `|` and `^` at variables. The native operations are recursions on binary digits;
-- each law here comes from the equation for the lowest digit.
use Prim.Native.Nat.{
  ℕ, zero, suc, ◌+◌, ◌-◌, ◌*◌, ◌/◌, ◌%◌, ◌^◌, ◌≤◌, ◌<◌, min, max, differ, digits, bitwise, bit_and,
  bit_or, bit_xor, bit_and-bitwise, bit_or-bitwise, bit_xor-bitwise,
}
use mathlib.Core.Path.{◌≡◌, refl, ap, sym, ◌∙◌}
use native.Mathlib.Nat.{le_refl, pow-suc, pow-succ', one-le-pow, div-div-eq-div-mul}
use native.Mathlib.Omega.{arith}

-- A number has no more digits than its value, so fuel beyond that changes nothing.
module _ (rest : ℕ → ℕ) (op : ℕ → ℕ → ℕ) where
  spare_fuel :
      (x y fuel more : ℕ)
      → x ≤ fuel
      → fuel ≤ more
      → digits rest op more x y ≡ digits rest op fuel x y
  spare_fuel zero y zero zero h k = refl
  spare_fuel zero y zero (suc more) h k = refl
  spare_fuel zero y (suc fuel) zero h k = absurd (omega arith)
  spare_fuel zero y (suc fuel) (suc more) h k = refl
  spare_fuel (suc x) y zero more h k = absurd (omega arith)
  spare_fuel (suc x) y (suc fuel) zero h k = absurd (omega arith)
  spare_fuel (suc x) y (suc fuel) (suc more) h k =
      let deeper = spare_fuel (suc x / 2) (y / 2) fuel more (omega arith) (omega arith) in
      omega (arith, deeper)

  lowest_digit :
      (x y : ℕ)
      → bitwise rest op (suc x) y ≡ op (suc x % 2) (y % 2) + 2 * bitwise rest op (suc x / 2) (y / 2)
  lowest_digit x y =
      let deeper = spare_fuel (suc x / 2) (y / 2) (suc x / 2) x (le_refl _) (omega arith) in
      omega (arith, deeper)

pub bit_or_step : (x y : ℕ) → bit_or x y ≡ max (x % 2) (y % 2) + 2 * bit_or (x / 2) (y / 2)
bit_or_step zero y = simp bit_or-bitwise (omega arith)
bit_or_step (suc x) y = simp bit_or-bitwise (lowest_digit (λ t. t) max x y)

pub bit_and_step : (x y : ℕ) → bit_and x y ≡ min (x % 2) (y % 2) + 2 * bit_and (x / 2) (y / 2)
bit_and_step zero y = simp bit_and-bitwise (omega arith)
bit_and_step (suc x) y = simp bit_and-bitwise (lowest_digit (λ t. 0) min x y)

differ_mod : (x y : ℕ) → x < 2 → y < 2 → differ x y ≡ (x + y) % 2
differ_mod zero y p q = omega arith
differ_mod (suc zero) zero p q = refl
differ_mod (suc zero) (suc zero) p q = refl
differ_mod (suc zero) (suc (suc y)) p q = absurd (omega arith)
differ_mod (suc (suc x)) y p q = absurd (omega arith)

bit_xor_digit :
    (x y : ℕ) → bit_xor (suc x) y ≡ differ (suc x % 2) (y % 2) + 2 * bit_xor (suc x / 2) (y / 2)
bit_xor_digit x y = simp bit_xor-bitwise (lowest_digit (λ t. t) differ x y)

-- The lowest digit of an exclusive or is the parity of the sum.
pub bit_xor_step : (a b : ℕ) → bit_xor a b ≡ bit_xor (a / 2) (b / 2) * 2 + (a + b) % 2
bit_xor_step zero b = simp bit_xor-bitwise (omega arith)
bit_xor_step (suc a) b =
    omega (arith, bit_xor_digit a b, differ_mod (suc a % 2) (b % 2) (omega arith) (omega arith))

pub xor_half : (a b : ℕ) → bit_xor a b / 2 ≡ bit_xor (a / 2) (b / 2)
xor_half a b = omega (arith, bit_xor_step a b)

pub xor_parity : (a b : ℕ) → bit_xor a b % 2 ≡ (a + b) % 2
xor_parity a b = omega (arith, bit_xor_step a b)

pub bit_xor_self : (n a : ℕ) → a ≤ n → bit_xor a a ≡ 0
bit_xor_self n zero h = refl
bit_xor_self zero (suc a) h = absurd (omega arith)
bit_xor_self (suc n) (suc a) h =
    omega (arith, bit_xor_step (suc a) (suc a), bit_xor_self n (suc a / 2) (omega arith))

xor_comm_fuel : (n a b : ℕ) → a + b ≤ n → bit_xor a b ≡ bit_xor b a
xor_comm_fuel n zero zero h = refl
xor_comm_fuel zero (suc a) b h = absurd (omega arith)
xor_comm_fuel zero zero (suc b) h = absurd (omega arith)
xor_comm_fuel (suc n) (suc a) b h = omega (
  arith,
  bit_xor_step (suc a) b,
  bit_xor_step b (suc a),
  xor_comm_fuel n (suc a / 2) (b / 2) (omega arith),
)
xor_comm_fuel (suc n) zero (suc b) h = omega (
  arith,
  bit_xor_step zero (suc b),
  bit_xor_step (suc b) zero,
  xor_comm_fuel n (zero / 2) (suc b / 2) (omega arith),
)

pub xor_comm : (a b : ℕ) → bit_xor a b ≡ bit_xor b a
xor_comm a b = xor_comm_fuel (a + b) a b (le_refl _)

xor_assoc_fuel :
    (n a b c : ℕ) → a ≤ n → b ≤ n → c ≤ n → bit_xor (bit_xor a b) c ≡ bit_xor a (bit_xor b c)
xor_assoc_fuel zero zero zero zero p q r = refl
xor_assoc_fuel zero zero zero (suc c) p q r = absurd (omega arith)
xor_assoc_fuel zero zero (suc b) c p q r = absurd (omega arith)
xor_assoc_fuel zero (suc a) b c p q r = absurd (omega arith)
xor_assoc_fuel (suc n) a b c p q r = ground (
  arith,
  bit_xor_step (bit_xor a b) c,
  bit_xor_step a (bit_xor b c),
  xor_half a b,
  xor_half b c,
  xor_parity a b,
  xor_parity b c,
  xor_assoc_fuel n (a / 2) (b / 2) (c / 2) (omega arith) (omega arith) (omega arith),
)

pub xor_assoc : (a b c : ℕ) → bit_xor (bit_xor a b) c ≡ bit_xor a (bit_xor b c)
xor_assoc a b c = xor_assoc_fuel (a + b + c) a b c (omega arith) (omega arith) (omega arith)

or_nothing : (bound x : ℕ) → x ≤ bound → bit_or x 0 ≡ x
or_nothing bound zero h = refl
or_nothing zero (suc x) h = absurd (omega arith)
or_nothing (suc bound) (suc x) h =
    let half = or_nothing bound (suc x / 2) (omega arith) in
    omega (arith, half, bit_or_step (suc x) 0)

pub bit_or-zero : (x : ℕ) → bit_or x 0 ≡ x
bit_or-zero x = or_nothing x x (le_refl _)

pub zero-xor : (b : ℕ) → bit_xor 0 b ≡ b
zero-xor b = bit_xor-bitwise 0 b

pub xor-zero : (b : ℕ) → bit_xor b 0 ≡ b
xor-zero b = xor_comm b 0 ∙ zero-xor b

-- Exclusive or with the same number twice changes nothing.
pub xor_cancel : (a b : ℕ) → bit_xor a (bit_xor a b) ≡ b
xor_cancel a b =
    sym (xor_assoc a a b) ∙ ap (λ t. bit_xor t b) (bit_xor_self a a (le_refl _)) ∙ zero-xor b

pub xor_cancel_right : (a b : ℕ) → bit_xor (bit_xor a b) b ≡ a
xor_cancel_right a b = xor_assoc a b b ∙ ap (bit_xor a) (bit_xor_self b b (le_refl _)) ∙ xor-zero a

shift_suc : (x k : ℕ) → x * 2 ^ suc k ≡ 2 * (x * 2 ^ k)
shift_suc x k = ap (λ (t : ℕ). x * t) (pow-suc 2 k) ∙ omega arith

-- Exclusive or works on the high part and the low `k` bits apart.
pub bit_xor_fields :
    (k p q r s : ℕ)
    → r < 2 ^ k
    → s < 2 ^ k
    → bit_xor (p * 2 ^ k + r) (q * 2 ^ k + s) ≡ bit_xor p q * 2 ^ k + bit_xor r s
bit_xor_fields zero p q zero zero hr hs = ground arith
bit_xor_fields zero p q zero (suc s) hr hs = absurd (omega arith)
bit_xor_fields zero p q (suc r) s hr hs = absurd (omega arith)
bit_xor_fields (suc k) p q r s hr hs = ground (
  arith,
  bit_xor_step (p * 2 ^ suc k + r) (q * 2 ^ suc k + s),
  bit_xor_step r s,
  shift_suc p k,
  shift_suc q k,
  shift_suc (bit_xor p q) k,
  bit_xor_fields k p q (r / 2) (s / 2) (omega arith) (omega arith),
)

pub bit_xor-lt : (k r s : ℕ) → r < 2 ^ k → s < 2 ^ k → bit_xor r s < 2 ^ k
bit_xor-lt zero zero zero hr hs = hs
bit_xor-lt zero zero (suc s) hr hs = absurd (omega arith)
bit_xor-lt zero (suc r) s hr hs = absurd (omega arith)
bit_xor-lt (suc k) r s hr hs =
    omega (
      arith,
      pow-suc 2 k,
      bit_xor_step r s,
      bit_xor-lt k (r / 2) (s / 2) (omega arith) (omega arith),
    )

and_nothing : (bound x : ℕ) → x ≤ bound → bit_and x 0 ≡ 0
and_nothing bound zero h = refl
and_nothing zero (suc x) h = absurd (omega arith)
and_nothing (suc bound) (suc x) h =
    let half = and_nothing bound (suc x / 2) (omega arith) in
    omega (arith, half, bit_and_step (suc x) 0)

and_low_bits : (k high low : ℕ) → low < 2 ^ k → bit_and (high * 2 ^ k + low) (2 ^ k - 1) ≡ low
and_low_bits zero high low h =
    rw (and_nothing (high * 1 + low) (high * 1 + low) (le_refl _)) (omega arith)
and_low_bits (suc k) high low h =
    let half = and_low_bits k high (low / 2) (omega arith) in
    let here = bit_and_step (high * 2 ^ suc k + low) (2 ^ suc k - 1) in
    ground (arith, half, here, shift_suc high k, pow-suc 2 k)

-- A mask of `k` low bits is the remainder by `2 ^ k`.
pub bit_and_mask : (k x : ℕ) → bit_and x (2 ^ k - 1) ≡ x % 2 ^ k
bit_and_mask k x =
    let low = and_low_bits k (x / 2 ^ k) (x % 2 ^ k) in ground (arith, low, one-le-pow k 2)

-- The same at a byte boundary: the byte above and the lowest byte.
xor_split :
    (a b : ℕ) → bit_xor a b ≡ bit_xor (a / 256) (b / 256) * 256 + bit_xor (a % 256) (b % 256)
xor_split a b =
    ap (λ t. bit_xor t b) (omega arith)
    ∙ ap (bit_xor (a / 256 * 256 + a % 256)) (omega arith)
    ∙ bit_xor_fields 8 (a / 256) (b / 256) (a % 256) (b % 256) (omega arith) (omega arith)

pub xor_byte-lt : (a b : ℕ) → a < 256 → b < 256 → bit_xor a b < 256
xor_byte-lt a b ha hb = bit_xor-lt 8 a b ha hb

pub xor_high : (a b : ℕ) → bit_xor a b / 256 ≡ bit_xor (a / 256) (b / 256)
xor_high a b =
    omega (arith, xor_split a b, xor_byte-lt (a % 256) (b % 256) (omega arith) (omega arith))

pub xor_low : (a b : ℕ) → bit_xor a b % 256 ≡ bit_xor (a % 256) (b % 256)
xor_low a b =
    omega (arith, xor_split a b, xor_byte-lt (a % 256) (b % 256) (omega arith) (omega arith))

-- `x & 0xff` and `x & 0xffff`.
pub mask_byte : (a : ℕ) → bit_and a 0xff ≡ a % 256
mask_byte a = bit_and_mask 8 a

pub mask_word : (a : ℕ) → bit_and a 0xffff ≡ a % 65536
mask_word a = bit_and_mask 16 a

pub bit_or_fields : (k high low : ℕ) → low < 2 ^ k → bit_or (high * 2 ^ k) low ≡ high * 2 ^ k + low
bit_or_fields zero high zero h = ground (arith, bit_or-zero high)
bit_or_fields zero high (suc low) h = absurd (omega arith)
bit_or_fields (suc k) high low h =
    let half = bit_or_fields k high (low / 2) (omega arith) in
    ground (arith, half, bit_or_step (high * 2 ^ suc k) low, shift_suc high k)

-- A mask of ones above `k` zeros keeps the high part.
pub bit_and_shifted : (k a m : ℕ) → bit_and a (m * 2 ^ k) ≡ bit_and (a / 2 ^ k) m * 2 ^ k
bit_and_shifted zero a m = ground arith
bit_and_shifted (suc k) a m = ground (
  arith,
  bit_and_step a (m * 2 ^ suc k),
  shift_suc m k,
  shift_suc (bit_and (a / 2 / 2 ^ k) m) k,
  div-div-eq-div-mul a 2 (2 ^ k),
  pow-succ' 2 k,
  bit_and_shifted k (a / 2) m,
)

pub bit_and_high : (a : ℕ) → bit_and a 0xff00 / 256 ≡ a / 256 % 256
bit_and_high a = omega (arith, bit_and_shifted 8 a 0xff, mask_byte (a / 256))
