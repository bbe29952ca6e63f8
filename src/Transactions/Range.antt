-- ===== src/Transactions/Range.antt =====
-- When the encoders return: each argument in the range of its width is enough, so that a RangeError
-- names an argument out of range.
use Prim.Native.String.{String}
use equinox.Prelude.{
  ℕ, ◌-◌, ◌*◌, ◌^◌, ◌≤◌, ◌<◌, ◌≡◌, refl, ap, ◌∙◌, Option, some, List, [], ◌∷◌, ◌++◌, length, arith,
  All,
}
use equinox.Prelude.Int.{ℤ, pos, negsuc, pos_part, neg_part, ◌+ℤ◌}
use equinox.Bytes.{Bytes}
use equinox.Bytes.Codec.{pow_pos}
use equinox.Transactions.{AccountMeta, Instruction, instruction}
use equinox.Transactions.Writer.{
  Number, integer, u8, u16, u32, unsigned, signed, pubkey, push_bytes,
}
use equinox.Transactions.Fields.{
  Field, byte_field, half_field, word_field, unsigned_field, signed_field, key_field, write_field,
  write_fields,
}

-- A value that its width can hold.
abbrev pub Fits : Field → Type 0
Fits (byte_field v) = (k : ℕ) × (v ≡ integer (pos k)) × (k < 2 ^ 8)
Fits (half_field v) = (k : ℕ) × (v ≡ integer (pos k)) × (k < 2 ^ 16)
Fits (word_field v) = (k : ℕ) × (v ≡ integer (pos k)) × (k < 2 ^ 32)
Fits (unsigned_field n v) = (k : ℕ) × (v ≡ pos k) × (k < 2 ^ (8 * n))
Fits (signed_field n v) = (pos_part v < 2 ^ (8 * n - 1)) × (neg_part v ≤ 2 ^ (8 * n - 1))
Fits (key_field v) = length v ≡ 32

Written : Option Bytes → Type 0
Written o = (bytes : Bytes) × (o ≡ some bytes)

byte-Written :
    (v : Number) (k : ℕ) (bs : Bytes) → v ≡ integer (pos k) → k < 2 ^ 8 → Written (u8 v bs)
unfolding u8 Written
byte-Written v k bs e h = (bs ++ k ∷ [], rw e (ground arith))

half-Written :
    (v : Number) (k : ℕ) (bs : Bytes) → v ≡ integer (pos k) → k < 2 ^ 16 → Written (u16 v bs)
unfolding u16 Written
half-Written v k bs e h = (push_bytes 2 k bs, rw e (ground arith))

word-Written :
    (v : Number) (k : ℕ) (bs : Bytes) → v ≡ integer (pos k) → k < 2 ^ 32 → Written (u32 v bs)
unfolding u32 Written
word-Written v k bs e h = (push_bytes 4 k bs, rw e (ground arith))

unsigned-Written :
    (n : ℕ) (v : ℤ) (k : ℕ) (bs : Bytes) → v ≡ pos k → k < 2 ^ (8 * n) → Written (unsigned n v bs)
unfolding unsigned Written
unsigned-Written n v k bs e h = (push_bytes n k bs, rw e (ground arith))

signed-Written :
    (n : ℕ) (v : ℤ) (bs : Bytes)
    → pos_part v < 2 ^ (8 * n - 1)
    → neg_part v ≤ 2 ^ (8 * n - 1)
    → Written (signed n v bs)
unfolding signed Written
signed-Written n (pos k) bs h l = (push_bytes n k bs, ground arith)
signed-Written n (negsuc k) bs h l = (
  push_bytes n (pos_part (pos (2 ^ (8 * n)) +ℤ negsuc k)) bs,
  ground (arith, pow_pos (8 * n - 1)),
)

key-Written : (v bs : Bytes) → length v ≡ 32 → Written (pubkey v bs)
unfolding Written
key-Written v bs h = (bs ++ v, ground arith)

field-Written : (f : Field) (bs : Bytes) → Fits f → Written (write_field f bs)
field-Written (byte_field v) bs (k, e, h) = byte-Written v k bs e h
field-Written (half_field v) bs (k, e, h) = half-Written v k bs e h
field-Written (word_field v) bs (k, e, h) = word-Written v k bs e h
field-Written (unsigned_field n v) bs (k, e, h) = unsigned-Written n v k bs e h
field-Written (signed_field n v) bs (h, l) = signed-Written n v bs h l
field-Written (key_field v) bs h = key-Written v bs h

pub fields_written :
    (fs : List Field) (bs : Bytes)
    → All Fits fs
    → (bytes : Bytes) × (write_fields fs (some bs) ≡ some bytes)
unfolding Written
fields_written [] bs h = (bs, refl)
fields_written (f ∷ fs) bs (h, hs) =
    let (after, e) = field-Written f bs h in
    let (bytes, done) = fields_written fs after hs in (bytes, ap (write_fields fs) e ∙ done)

pub lone_instruction :
    {Address : Type 0} (address : String → Option Address) (program : String)
    (accounts : List (AccountMeta Address)) {data' : Option Bytes} {bytes : Bytes} {a : Address}
    → data' ≡ some bytes
    → address program ≡ some a
    → (i : Instruction Address) × (instruction address data' program accounts ≡ some i)
unfolding instruction
lone_instruction address program accounts {bytes = bytes} {a = a} e h =
    (record { program_address = a; accounts = accounts; payload = bytes }, rw (e, h) refl)
