-- ===== src/Transactions/Fields/Layout.antt =====
-- The fields of a chain, and where they are read.
use equinox.Prelude.{ℕ, ◌+◌, ◌≡◌, Option, some, List, [], ◌∷◌, length}
use equinox.Prelude.Int.{ℤ}
use equinox.Bytes.{Bytes}
use equinox.Transactions.Writer.{Number, int_of, u8, u16, u32, unsigned, signed, pubkey}
use equinox.Program.{read_unsigned_at, read_signed_at, slice_at}
use equinox.Mark.{◌>>=◌}

-- One call of the writer.
pub data Field : Type 0 where
  byte_field half_field word_field : Number → Field
  unsigned_field signed_field : (width : ℕ) → ℤ → Field
  key_field : Bytes → Field

abbrev pub write_field : Field → Bytes → Option Bytes
write_field (byte_field v) = u8 v
write_field (half_field v) = u16 v
write_field (word_field v) = u32 v
write_field (unsigned_field n v) = unsigned n v
write_field (signed_field n v) = signed n v
write_field (key_field v) = pubkey v

abbrev pub write_fields : List Field → Option Bytes → Option Bytes
write_fields [] w = w
write_fields (f ∷ fs) w = write_fields fs (w >>= write_field f)

abbrev pub width_of : Field → ℕ
width_of (byte_field v) = 1
width_of (half_field v) = 2
width_of (word_field v) = 4
width_of (unsigned_field n v) = n
width_of (signed_field n v) = n
width_of (key_field v) = 32

-- The program's reader for a field gives the value at an offset.
abbrev pub Reads : Field → Bytes → ℕ → Type 0
Reads (byte_field v) bs o = read_unsigned_at 1 bs o ≡ some (int_of v)
Reads (half_field v) bs o = read_unsigned_at 2 bs o ≡ some (int_of v)
Reads (word_field v) bs o = read_unsigned_at 4 bs o ≡ some (int_of v)
Reads (unsigned_field n v) bs o = read_unsigned_at n bs o ≡ some v
Reads (signed_field n v) bs o = read_signed_at n bs o ≡ some v
Reads (key_field v) bs o = slice_at 32 bs o ≡ some v

-- Each field is read at its offset, and nothing follows the last.
abbrev pub Holds : Bytes → ℕ → List Field → Type 0
Holds bs o [] = length bs ≡ o
Holds bs o (f ∷ fs) = Reads f bs o × Holds bs (o + width_of f) fs
