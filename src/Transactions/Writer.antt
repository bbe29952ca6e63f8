-- ===== src/Transactions/Writer.antt =====
-- `DataWriter` of workers/src/transactions.ts: the little-endian, fixed-width writer of
-- instruction data. A writer is the bytes pushed so far; `none` is the RangeError.
use equinox.Prelude.{
  ℕ, zero, suc, ◌-◌, ◌*◌, ◌/◌, ◌%◌, ◌^◌, Option, none, some, [], ◌∷◌, ◌++◌, Bool, true, ◌||◌, not,
  ◌==◌, if◌then◌else◌, length,
}
use equinox.Prelude.Int.{ℤ, pos, negsuc, ltb_ℤ, ◌+ℤ◌, pos_part}
use equinox.Bytes.{Bytes}

-- A `number`: an integer, or any other.
pub data Number : Type 0 where
  integer : ℤ → Number
  not_integer : Number

abbrev pub int_of : Number → ℤ
int_of (integer v) = v
int_of not_integer = pos 0

-- `!Number.isInteger(value) || value < 0 || value > max`.
abbrev pub number_refused : Number → ℕ → Bool
number_refused not_integer max = true
number_refused (integer v) max = ltb_ℤ v (pos 0) || ltb_ℤ (pos max) v

-- One `push` of the low byte a round.
unfoldable pub push_bytes : ℕ → ℕ → Bytes → Bytes
push_bytes zero remaining bytes = bytes
push_bytes (suc n) remaining bytes = push_bytes n (remaining / 256) (bytes ++ remaining % 256 ∷ [])

unfoldable pub u8 : Number → Bytes → Option Bytes
u8 value bytes =
    if number_refused value (2 ^ 8 - 1) then none else some (bytes ++ pos_part (int_of value) ∷ [])

-- The bytes of `value >>> 8 * i` are pushed in one call.
unfoldable pub u16 : Number → Bytes → Option Bytes
u16 value bytes =
    if number_refused value (2 ^ 16 - 1)
    then none
    else some (push_bytes 2 (pos_part (int_of value)) bytes)

unfoldable pub u32 : Number → Bytes → Option Bytes
u32 value bytes =
    if number_refused value (2 ^ 32 - 1)
    then none
    else some (push_bytes 4 (pos_part (int_of value)) bytes)

-- `unsigned`, the width in bytes first.
unfoldable pub unsigned : ℕ → ℤ → Bytes → Option Bytes
unsigned n value bytes =
    if ltb_ℤ value (pos 0) || ltb_ℤ (pos (2 ^ (8 * n) - 1)) value
    then none
    else some (push_bytes n (pos_part value) bytes)

-- `-(1n << BigInt(bytes * 8 - 1))` is `negsuc (half - 1)`.
unfoldable pub signed : ℕ → ℤ → Bytes → Option Bytes
signed n value bytes =
    let half = 2 ^ (8 * n - 1) in
    if ltb_ℤ value (negsuc (half - 1)) || ltb_ℤ (pos (half - 1)) value
    then none
    else let remaining = if ltb_ℤ value (pos 0) then pos (2 ^ (8 * n)) +ℤ value else value in
      some (push_bytes n (pos_part remaining) bytes)

abbrev pub u64 : ℤ → Bytes → Option Bytes
u64 value = unsigned 8 value

abbrev pub i64 : ℤ → Bytes → Option Bytes
i64 value = signed 8 value

abbrev pub i128 : ℤ → Bytes → Option Bytes
i128 value = signed 16 value

abbrev pub u128 : ℤ → Bytes → Option Bytes
u128 value = unsigned 16 value

abbrev pub raw : Bytes → Bytes → Option Bytes
raw value bytes = some (bytes ++ value)

abbrev pub pubkey : Bytes → Bytes → Option Bytes
pubkey value bytes = if not (length value == 32) then none else raw value bytes
