-- ===== src/Bytes/Codec.antt =====
-- The range checks and little-endian writers of clients/equinox/src/abi/encoding.ts, and that the
-- readers give back what the writers wrote.
use equinox.Prelude.{
  ℕ, zero, suc, ◌+◌, ◌-◌, ◌*◌, ◌/◌, ◌%◌, ◌^◌, ◌≤◌, ◌<◌, ◌≡◌, refl, ap, Option, none, some, [], ◌∷◌,
  ◌||◌, if◌then◌else◌, set, length, arith,
}
use equinox.Prelude.Int.{ℤ, pos, negsuc, ltb_ℤ, leb_ℤ, ◌+ℤ◌, pos_part, neg_part}
use equinox.Bytes.{Bytes, le_prefix, read_unsigned, as_signed, read_signed}
use mathlib.Core.Option
use native.Mathlib.Nat.{pow-suc, mul_comm}
use native.Mathlib.Numerals.{towards_suc}

-- `bigint | number`: a bigint, a number that is a safe integer, any other number.
pub data Numeric : Type 0 where
  bigint safe_integer : ℤ → Numeric
  other_number : Numeric

abbrev as_bigint : ℤ → Numeric → ℤ
as_bigint fallback (bigint v) = v
as_bigint fallback (safe_integer v) = v
as_bigint fallback other_number = fallback

-- `none` is the RangeError.
unfoldable pub checked_unsigned : Numeric → ℕ → Option ℤ
checked_unsigned value bits =
    let result = as_bigint (negsuc 0) value in
    if ltb_ℤ result (pos 0) || leb_ℤ (pos (2 ^ bits)) result then none else some result

-- `-(1n << BigInt(bits - 1))` is `negsuc (2 ^ (bits - 1) - 1)`.
unfoldable pub checked_signed : Numeric → ℕ → Option ℤ
checked_signed value bits =
    let result = as_bigint (pos 0) value in
    let half = 2 ^ (bits - 1) in
    if ltb_ℤ result (negsuc (half - 1)) || ltb_ℤ (pos (half - 1)) result then none else some result

-- `Number(current & 0xffn)` and `current >> 8n`, in two's complement.
abbrev low_byte : ℤ → ℕ
low_byte (pos n) = n % 256
low_byte (negsuc n) = 255 - n % 256

abbrev shift_byte : ℤ → ℤ
shift_byte (pos n) = pos (n / 256)
shift_byte (negsuc n) = negsuc (n / 256)

-- The number of bytes comes last in the source. A write past the end of a `Uint8Array` is ignored.
unfoldable pub write_unsigned : Bytes → ℕ → ℤ → ℕ → Bytes
write_unsigned bytes offset value zero = bytes
write_unsigned bytes offset value (suc n) =
    write_unsigned (set bytes offset (low_byte value)) (suc offset) (shift_byte value) n

unfoldable pub write_signed : Bytes → ℕ → ℤ → ℕ → Bytes
write_signed bytes offset value n =
    write_unsigned bytes offset (if ltb_ℤ value (pos 0) then pos (2 ^ (n * 8)) +ℤ value else value)
      n

write_unsigned-cons :
    (n o : ℕ) (v : ℤ) (b : ℕ) (bs : Bytes)
    → write_unsigned (b ∷ bs) (suc o) v n ≡ b ∷ write_unsigned bs o v n
unfolding write_unsigned
write_unsigned-cons zero o v b bs = refl
write_unsigned-cons (suc n) o v b bs =
    write_unsigned-cons n (suc o) (shift_byte v) b (set bs o (low_byte v))

prefix-write :
    (n v : ℕ) (bs : Bytes)
    → v < 256 ^ n
    → n ≤ length bs
    → le_prefix n (write_unsigned bs 0 (pos v) n) ≡ some v
unfolding write_unsigned le_prefix
prefix-write zero v bs h k = ap some (omega arith)
prefix-write (suc n) v [] h k = elim k [ ]
prefix-write (suc n) v (b ∷ bs) h k =
    let small : v / 256 < 256 ^ n = omega (arith, pow-suc 256 n) in
    rw (write_unsigned-cons n 0 (pos (v / 256)) (v % 256) bs)
      (rw (prefix-write n (v / 256) bs small (omega arith)) (ap some (omega arith)))

read_write_pos :
    (n o v : ℕ) (bs : Bytes)
    → v < 256 ^ n
    → o + n ≤ length bs
    → read_unsigned n (write_unsigned bs o (pos v) n) o ≡ some v
unfolding read_unsigned
read_write_pos n zero v bs h k = prefix-write n v bs h (omega arith)
read_write_pos n (suc o) v [] h k = absurd (omega arith)
read_write_pos n (suc o) v (b ∷ bs) h k =
    rw (write_unsigned-cons n o (pos v) b bs) (read_write_pos n o v bs h (omega arith))

pub pow_bytes : (n : ℕ) → 256 ^ n ≡ 2 ^ (8 * n)
pow_bytes zero = refl
pow_bytes (suc n) =
    let e : 8 * suc n ≡ 8 * n + 8 = omega arith in
    rw e (simp towards_suc (omega (arith, pow_bytes n)))

pub pow_half : (m : ℕ) → 2 ^ (8 * suc m) ≡ 2 * 2 ^ (8 * suc m - 1)
pow_half m =
    let e : 8 * suc m ≡ suc (8 * suc m - 1) = omega arith in
    omega (arith, ap (λ (k : ℕ). 2 ^ k) e, pow-suc 2 (8 * suc m - 1))

pub pow_pos : (n : ℕ) → 0 < 2 ^ n
pow_pos zero = omega arith
pow_pos (suc n) = omega (arith, pow-suc 2 n, pow_pos n)

checked_unsigned_bounds :
    (value : Numeric) (bits : ℕ) {v : ℤ}
    → checked_unsigned value bits ≡ some v
    → (neg_part v ≡ 0) × (pos_part v < 2 ^ bits)
unfolding checked_unsigned
checked_unsigned_bounds value bits h = ground arith

checked_signed_bounds :
    (value : Numeric) (bits : ℕ) {v : ℤ}
    → checked_signed value bits ≡ some v
    → (neg_part v ≤ 2 ^ (bits - 1)) × (pos_part v < 2 ^ (bits - 1))
unfolding checked_signed
checked_signed_bounds value bits h = ground (arith, pow_pos (bits - 1))

-- A value that passes `checkedUnsigned` for a width of n bytes, written at an offset that has
-- room for it, is read back there.
pub read_unsigned-write_unsigned :
    (value : Numeric) (n o : ℕ) (bs : Bytes) {v : ℤ}
    → checked_unsigned value (8 * n) ≡ some v
    → o + n ≤ length bs
    → Option.map pos (read_unsigned n (write_unsigned bs o v n) o) ≡ some v
read_unsigned-write_unsigned value n o bs {v = pos k} h room =
    let b = checked_unsigned_bounds value (8 * n) h in
    rw (read_write_pos n o k bs (omega (arith, pow_bytes n, b.1)) room)
read_unsigned-write_unsigned value n o bs {v = negsuc k} h room =
    let b = checked_unsigned_bounds value (8 * n) h in absurd (omega (arith, b.0))

-- Two's complement of a value in range.
pub pattern_of : (m k : ℕ) → k < 2 ^ (8 * suc m - 1) → as_signed (suc m) k ≡ pos k
unfolding as_signed
pattern_of m k h = ground arith

pub pattern_of_negsuc :
    (m k : ℕ) → k < 2 ^ (8 * suc m - 1) → as_signed (suc m) (2 ^ (8 * suc m) - suc k) ≡ negsuc k
unfolding as_signed
pattern_of_negsuc m k h = ground (arith, pow_half m)

-- The pattern that `writeSigned` takes for a value, over a modulus w.
pos_pattern : (w k : ℕ) → (if ltb_ℤ (pos k) (pos 0) then pos w +ℤ pos k else pos k) ≡ pos k
pos_pattern w k = ground arith

negsuc_pattern :
    (w k : ℕ)
    → k < w
    → (if ltb_ℤ (negsuc k) (pos 0) then pos w +ℤ negsuc k else negsuc k) ≡ pos (w - suc k)
unfolding ◌+ℤ◌
negsuc_pattern w k h = ground arith

-- The writer and the reader of a signed value, by the pattern that is written.
through_pattern :
    (n o p : ℕ) (v : ℤ) (bs : Bytes)
    → (if ltb_ℤ v (pos 0) then pos (2 ^ (n * 8)) +ℤ v else v) ≡ pos p
    → p < 256 ^ n
    → as_signed n p ≡ v
    → o + n ≤ length bs
    → read_signed n (write_signed bs o v n) o ≡ some v
unfolding read_signed write_signed
through_pattern n o p v bs e fits back room =
    rw (e, read_signed, read_write_pos n o p bs fits room) (ap some back)

-- What `checkedSigned` returns of a value for a width of m + 1 bytes, written by `writeSigned` at an
-- offset that has room for it, is read back there as a signed number.
pub read_signed-write_signed :
    (value : Numeric) (m o : ℕ) (bs : Bytes) {v : ℤ}
    → checked_signed value (8 * suc m) ≡ some v
    → o + suc m ≤ length bs
    → read_signed (suc m) (write_signed bs o v (suc m)) o ≡ some v
read_signed-write_signed value m o bs {v = pos k} h room =
    let b : k < 2 ^ (8 * suc m - 1) = (checked_signed_bounds value (8 * suc m) h).1 in
    let fits : k < 256 ^ suc m = omega (arith, pow_bytes (suc m), pow_half m, b) in
    through_pattern (suc m) o k (pos k) bs (pos_pattern (2 ^ (suc m * 8)) k) fits (pattern_of m k b)
      room
read_signed-write_signed value m o bs {v = negsuc k} h room =
    let b : k < 2 ^ (8 * suc m - 1) = (checked_signed_bounds value (8 * suc m) h).0 in
    let w : 2 ^ (suc m * 8) ≡ 2 ^ (8 * suc m) = ap (λ (t : ℕ). 2 ^ t) (mul_comm (suc m) 8) in
    let p = 2 ^ (8 * suc m) - suc k in
    let fits : p < 256 ^ suc m = omega (arith, pow_bytes (suc m), pow_pos (8 * suc m)) in
    let small : k < 2 ^ (8 * suc m) = omega (arith, pow_half m, b) in
    through_pattern (suc m) o p (negsuc k) bs (rw w (negsuc_pattern (2 ^ (8 * suc m)) k small)) fits
      (pattern_of_negsuc m k b) room
