-- ===== src/Bytes.antt =====
-- Account bytes as the decoders read them: a `Uint8Array` is a list of numbers, a read of one
-- byte out of range is `undefined` (`none`), and a `DataView` read out of range throws (`none`).
-- Also the writers of clients/equinox/src/abi/encoding.ts.
pub mod Codec
use equinox.Prelude.{
  ℕ, zero, suc, ◌+◌, ◌-◌, ◌*◌, ◌/◌, ◌%◌, ◌^◌, Bool, true, false, Option, none, some, List, [], ◌∷◌,
  ◌&&◌, ltb, leb, ◌==◌, if◌then◌else◌, get_elem?, drop, length, take,
}
use equinox.Prelude.Int.{ℤ, pos, negsuc}

abbrev pub Bytes : Type 0
Bytes = List ℕ

-- The little-endian number of the first `n` bytes.
unfoldable pub le_prefix : ℕ → Bytes → Option ℕ
le_prefix zero bs = some 0
le_prefix (suc n) [] = none
le_prefix (suc n) (b ∷ bs) = elim (le_prefix n bs) [ none ↦ none | some v ↦ some (b + 256 * v) ]

-- `view.getUintN(offset, true)` for a width in bytes.
unfoldable pub read_unsigned : ℕ → Bytes → ℕ → Option ℕ
unfolding le_prefix
read_unsigned width bytes offset = le_prefix width (drop offset bytes)

-- Two's complement: the integer that a pattern of `width` bytes stands for.
unfoldable pub as_signed : ℕ → ℕ → ℤ
as_signed width v = if leb (2 ^ (8 * width - 1)) v then negsuc (2 ^ (8 * width) - v - 1) else pos v

-- `view.getBigInt64(offset, true)`, `signed128` and the like.
unfoldable pub read_signed : ℕ → Bytes → ℕ → Option ℤ
read_signed width bytes offset = elim (read_unsigned width bytes offset) [
  | none ↦ none
  | some v ↦ some (as_signed width v)
]

-- Equality of two byte strings. A text of ASCII characters is what `TextDecoder` makes of some
-- bytes exactly when these are its codes.
abbrev pub same_bytes : Bytes → Bytes → Bool
same_bytes [] [] = true
same_bytes [] (b ∷ bs) = false
same_bytes (a ∷ as') [] = false
same_bytes (a ∷ as') (b ∷ bs) = a == b && same_bytes as' bs

-- `bytes[i] === v`, false where the byte is `undefined`.
abbrev pub byte_is : Bytes → ℕ → ℕ → Bool
byte_is bytes i v = elim (get_elem? bytes i) [ none ↦ false | some b ↦ b == v ]

-- Rounding to a multiple of `u`, ties to even.
abbrev round_to : ℕ → ℕ → ℕ
round_to u n =
    let q = n / u in
    let r = 2 * (n % u) in
    if ltb r u
    then q * u
    else if ltb u r
    then (q + 1) * u
    else if q % 2 == 0
    then q * u
    else (q + 1) * u

abbrev spacing : ℕ → ℕ → ℕ → ℕ
spacing zero u n = u
spacing (suc k) u n = let wider = spacing k (2 * u) n in if ltb n (u * 2 ^ 53) then u else wider

-- `Number(v)` of a bigint below 2 ^ 85, and the result of an operation on numbers whose exact
-- result is v: v up to 2 ^ 53, and the nearest double from there on.
unfoldable pub to_number : ℕ → ℕ
to_number v = if leb v (2 ^ 53) then v else round_to (spacing 32 1 v) v

-- The same for a number with a sign.
unfoldable pub to_signed_number : ℤ → ℤ
to_signed_number (pos n) = pos (to_number n)
to_signed_number (negsuc n) = negsuc (to_number (suc n) - 1)

-- `Math.floor(p / 10_000)` of a number p. Up to 2 ^ 53 the rounding of the quotient does not reach the
-- next integer; above, the quotient is at least 2 ^ 39, so a multiple of 2 ^ -13.
unfoldable pub floor_basis_points : ℕ → ℕ
floor_basis_points p =
    if leb p (2 ^ 53)
    then p / 10000
    else round_to (spacing 32 10000 (p * 2 ^ 13)) (p * 2 ^ 13) / (10000 * 2 ^ 13)
