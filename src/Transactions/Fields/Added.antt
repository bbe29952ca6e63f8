-- ===== src/Transactions/Fields/Added.antt =====
-- Each call of the writer adds a field that is read where it stands.
use equinox.Prelude.{
  ℕ, suc, ◌+◌, ◌-◌, ◌*◌, ◌%◌, ◌^◌, ◌≤◌, ◌<◌, ◌≡◌, refl, sym, ap, subst, ◌∙◌, none, some, true, leb,
  [], ◌∷◌, ◌++◌, if◌then◌else◌, length, drop, take, length-append, arith,
}
use equinox.Prelude.Int.{ℤ, pos, negsuc, ◌+ℤ◌, pos_part}
use equinox.Bytes.{Bytes, read_unsigned, as_signed, read_signed}
use equinox.Bytes.Codec.{pow_half, pow_pos, pattern_of, pattern_of_negsuc}
use equinox.Transactions.Writer.{
  Number, integer, not_integer, int_of, number_refused, push_bytes, u8, u16, u32, unsigned, signed,
  pubkey,
}
use equinox.Program.{read_unsigned_at, read_signed_at, slice_at}
use mathlib.Core.Option
use equinox.Transactions.Fields.Little.{
  le_bytes, append_assoc, push_bytes-append, length-le_bytes, drop-append, take-append,
  read_unsigned-push,
}
use equinox.Transactions.Fields.Layout.{
  Field, byte_field, half_field, word_field, unsigned_field, signed_field, key_field, width_of,
  Reads,
}

-- Bytes that a field adds to those before it.
unfoldable pub Added : Field → Bytes → Bytes → Type 0
Added f before after =
    (piece : Bytes) × (after ≡ before ++ piece)
    × (length piece ≡ width_of f)
    × ((rest : Bytes) → Reads f (after ++ rest) (length before))

pushed-Added :
    (f : Field) (n k : ℕ) (before : Bytes)
    → width_of f ≡ n
    → ((rest : Bytes) → Reads f (push_bytes n k before ++ rest) (length before))
    → Added f before (push_bytes n k before)
unfolding Added
pushed-Added f n k before w r =
    (le_bytes n k, push_bytes-append n k before, length-le_bytes n k ∙ sym w, r)

number_range :
    (v : Number) (max : ℕ) {A : Type 0} {a : A} {x : A}
    → (if number_refused v max then none else some a) ≡ some x
    → (a ≡ x) × (int_of v ≡ pos (pos_part (int_of v))) × (pos_part (int_of v) ≤ max)
number_range (integer (pos k)) max h = ground arith
number_range (integer (negsuc k)) max h = ground arith
number_range not_integer max h = ground arith

number-Added :
    (f : Field) (n : ℕ) (v : Number) (max : ℕ) (before : Bytes) {after : Bytes}
    → width_of f ≡ n
    → (if number_refused v max then none else some (push_bytes n (pos_part (int_of v)) before))
      ≡ some after
    → max < 2 ^ (8 * n)
    → ((bs : Bytes) (o : ℕ)
        → read_unsigned n bs o ≡ some (pos_part (int_of v))
        → int_of v ≡ pos (pos_part (int_of v))
        → Reads f bs o)
    → Added f before after
number-Added f n v max before w h fits reads =
    let r = number_range v max h in
    let k = pos_part (int_of v) in
    subst (λ (a : Bytes). Added f before a) r.0
      (pushed-Added f n k before w (λ (rest : Bytes).
        reads (push_bytes n k before ++ rest) (length before)
          (read_unsigned-push n k before rest (omega (arith, fits, r.2))) r.1))

pub byte-Added :
    (v : Number) (before : Bytes) {after : Bytes}
    → u8 v before ≡ some after
    → Added (byte_field v) before after
unfolding u8 push_bytes read_unsigned_at
byte-Added v before {after} h =
    let r = number_range v 255 h in
    let low : pos_part (int_of v) % 256 ≡ pos_part (int_of v) = omega (arith, r.2) in
    let again : (if number_refused v 255
          then none
          else some (push_bytes 1 (pos_part (int_of v)) before))
        ≡ some after =
      ap (λ (k : ℕ). if number_refused v 255 then none else some (before ++ k ∷ [])) low ∙ h in
    number-Added (byte_field v) 1 v 255 before refl again (omega arith)
      (λ (bs : Bytes) (o : ℕ) e same. rw e (ap some (sym same)))

pub half-Added :
    (v : Number) (before : Bytes) {after : Bytes}
    → u16 v before ≡ some after
    → Added (half_field v) before after
unfolding u16 read_unsigned_at
half-Added v before h =
    number-Added (half_field v) 2 v 65535 before refl h (omega arith)
      (λ (bs : Bytes) (o : ℕ) e same. rw e (ap some (sym same)))

pub word-Added :
    (v : Number) (before : Bytes) {after : Bytes}
    → u32 v before ≡ some after
    → Added (word_field v) before after
unfolding u32 read_unsigned_at
word-Added v before h =
    number-Added (word_field v) 4 v 4294967295 before refl h (omega arith)
      (λ (bs : Bytes) (o : ℕ) e same. rw e (ap some (sym same)))

pub unsigned-Added :
    (n : ℕ) (v : ℤ) (before : Bytes) {after : Bytes}
    → unsigned n v before ≡ some after
    → Added (unsigned_field n v) before after
unfolding unsigned read_unsigned_at
unsigned-Added n (negsuc k) before h = ground arith
unsigned-Added n (pos k) before {after} h =
    let r : (push_bytes n k before ≡ after) × (k ≤ 2 ^ (8 * n) - 1) = ground arith in
    subst (λ (a : Bytes). Added (unsigned_field n (pos k)) before a) r.0
      (pushed-Added (unsigned_field n (pos k)) n k before refl (λ (rest : Bytes).
        ap (Option.map pos)
          (read_unsigned-push n k before rest (omega (arith, pow_pos (8 * n), r.1)))))

signed_pattern :
    (m : ℕ) (v : ℤ) (bs rest : Bytes) (p : ℕ)
    → p < 2 ^ (8 * suc m)
    → as_signed (suc m) p ≡ v
    → read_signed_at (suc m) (push_bytes (suc m) p bs ++ rest) (length bs) ≡ some v
unfolding read_signed read_signed_at
signed_pattern m v bs rest p small back =
    rw (read_signed_at, read_signed, read_unsigned-push (suc m) p bs rest small) (ap some back)

pub signed-Added :
    (m : ℕ) (v : ℤ) (before : Bytes) {after : Bytes}
    → signed (suc m) v before ≡ some after
    → Added (signed_field (suc m) v) before after
unfolding signed ◌+ℤ◌
signed-Added m (pos k) before {after} h =
    let r : (push_bytes (suc m) k before ≡ after) × (k ≤ 2 ^ (8 * suc m - 1) - 1) = ground arith in
    let b : k < 2 ^ (8 * suc m - 1) = omega (arith, pow_pos (8 * suc m - 1), r.1) in
    subst (λ (a : Bytes). Added (signed_field (suc m) (pos k)) before a) r.0
      (pushed-Added (signed_field (suc m) (pos k)) (suc m) k before refl (λ (rest : Bytes).
        signed_pattern m (pos k) before rest k (omega (arith, pow_half m, b)) (pattern_of m k b)))
signed-Added m (negsuc k) before {after} h =
    let p = 2 ^ (8 * suc m) - suc k in
    let r : (push_bytes (suc m) p before ≡ after) × (k < 2 ^ (8 * suc m - 1)) =
      ground (arith, pow_pos (8 * suc m - 1), pow_half m) in
    subst (λ (a : Bytes). Added (signed_field (suc m) (negsuc k)) before a) r.0
      (pushed-Added (signed_field (suc m) (negsuc k)) (suc m) p before refl (λ (rest : Bytes).
        signed_pattern m (negsuc k) before rest p (omega (arith, pow_pos (8 * suc m)))
          (pattern_of_negsuc m k r.1)))

slice-append :
    (v before rest : Bytes) {after : Bytes}
    → length v ≡ 32
    → before ++ v ≡ after
    → slice_at 32 (after ++ rest) (length before) ≡ some v
unfolding slice_at
slice-append v before rest {after} n e =
    let whole : after ++ rest ≡ before ++ (v ++ rest) =
      ap (λ (t : Bytes). t ++ rest) (sym e) ∙ append_assoc before v rest in
    let room : leb (length before + 32) (length (before ++ (v ++ rest))) ≡ true =
      ground (arith, length-append before (v ++ rest), length-append v rest) in
    let body : take 32 (drop (length before) (before ++ (v ++ rest))) ≡ v =
      ap (λ (t : Bytes). take 32 t) (drop-append before (v ++ rest))
      ∙ ap (λ (k : ℕ). take k (v ++ rest)) (sym n)
      ∙ take-append v rest in
    subst (λ (t : Bytes). slice_at 32 t (length before) ≡ some v) (sym whole)
      (rw room (ap some body))

pub key-Added :
    (v before : Bytes) {after : Bytes}
    → pubkey v before ≡ some after
    → Added (key_field v) before after
unfolding Added slice_at
key-Added v before {after} h =
    let r : (before ++ v ≡ after) × (length v ≡ 32) = ground arith in
    let at : (rest : Bytes) → slice_at 32 (after ++ rest) (length before) ≡ some v =
      λ (rest : Bytes). slice-append v before rest r.1 r.0 in
    (v, sym r.0, r.1, at)
