-- ===== src/Transactions/Behind.antt =====
-- A chain of calls of `DataWriter` after other bytes writes what it writes on its own.
use equinox.Prelude.{
  ℕ, ◌^◌, ◌*◌, ◌≡◌, refl, sym, ap, subst, ◌∙◌, Option, none, some, Bool, true, false, Option-cases,
  inl, inr, List, [], ◌∷◌, ◌++◌, not, ◌==◌, if◌then◌else◌, length,
}
use equinox.Prelude.Int.{pos, ltb_ℤ, ◌+ℤ◌, pos_part}
use equinox.Bytes.{Bytes}
use mathlib.Core.Option
use equinox.Transactions.Writer.{int_of, number_refused, push_bytes, u8, u16, u32, unsigned, signed}
use equinox.Transactions.Fields.{
  Field, byte_field, half_field, word_field, unsigned_field, signed_field, key_field, write_field,
  write_fields, push_bytes-append, append_assoc, append_nil, le_bytes,
}

push_behind :
    (n k : ℕ) (front bs : Bytes) → push_bytes n k (front ++ bs) ≡ front ++ push_bytes n k bs
push_behind n k front bs =
    push_bytes-append n k (front ++ bs)
    ∙ append_assoc front bs (le_bytes n k)
    ∙ ap (λ (t : Bytes). front ++ t) (sym (push_bytes-append n k bs))

abbrev prefixed : Bytes → Option Bytes → Option Bytes
prefixed front o = Option.map (λ (t : Bytes). front ++ t) o

tested_behind :
    (refused : Bool) (front x z : Bytes)
    → z ≡ front ++ x
    → (if refused then none else some z) ≡ prefixed front (if refused then none else some x)
tested_behind true front x z e = refl
tested_behind false front x z e = ap some e

write_field_behind :
    (f : Field) (front bs : Bytes) → write_field f (front ++ bs) ≡ prefixed front (write_field f bs)
unfolding u8 u16 u32 unsigned signed
write_field_behind (byte_field v) front bs =
    let k = pos_part (int_of v) in
    tested_behind (number_refused v 255) front (bs ++ k ∷ []) (front ++ bs ++ k ∷ [])
      (append_assoc front bs (k ∷ []))
write_field_behind (half_field v) front bs =
    let k = pos_part (int_of v) in
    tested_behind (number_refused v 65535) front (push_bytes 2 k bs) (push_bytes 2 k (front ++ bs))
      (push_behind 2 k front bs)
write_field_behind (word_field v) front bs =
    let k = pos_part (int_of v) in
    tested_behind (number_refused v 4294967295) front (push_bytes 4 k bs)
      (push_bytes 4 k (front ++ bs)) (push_behind 4 k front bs)
write_field_behind (unsigned_field n v) front bs =
    tested_behind _ front (push_bytes n (pos_part v) bs) (push_bytes n (pos_part v) (front ++ bs))
      (push_behind n (pos_part v) front bs)
write_field_behind (signed_field n v) front bs =
    let k = pos_part (if ltb_ℤ v (pos 0) then pos (2 ^ (8 * n)) +ℤ v else v) in
    tested_behind _ front (push_bytes n k bs) (push_bytes n k (front ++ bs))
      (push_behind n k front bs)
write_field_behind (key_field v) front bs =
    tested_behind (not (length v == 32)) front (bs ++ v) (front ++ bs ++ v)
      (append_assoc front bs v)

write_fields_absent : (fs : List Field) → write_fields fs none ≡ none
write_fields_absent [] = refl
write_fields_absent (f ∷ fs) = write_fields_absent fs

-- A chain after some bytes gives those bytes and what the chain writes on its own, or throws where
-- it throws on its own.
write_fields_behind :
    (fs : List Field) (front bs : Bytes)
    → write_fields fs (some (front ++ bs))
      ≡ Option.map (λ (t : Bytes). front ++ t) (write_fields fs (some bs))
write_fields_behind [] front bs = refl
write_fields_behind (f ∷ fs) front bs =
    ap (write_fields fs) (write_field_behind f front bs) ∙ elim (Option-cases (write_field f bs)) [
      | inl e ↦
          subst (λ w. write_fields fs (prefixed front w) ≡ prefixed front (write_fields fs w))
            (sym e) (rw (write_fields_absent fs) refl)
      | inr (after, e) ↦
          subst (λ w. write_fields fs (prefixed front w) ≡ prefixed front (write_fields fs w))
            (sym e) (write_fields_behind fs front after)
    ]

pub write_fields_after :
    (fs : List Field) (front : Bytes)
    → write_fields fs (some front)
      ≡ Option.map (λ (t : Bytes). front ++ t) (write_fields fs (some []))
write_fields_after fs front =
    subst (λ (t : Bytes). write_fields fs (some t) ≡ prefixed front (write_fields fs (some [])))
      (append_nil front) (write_fields_behind fs front [])
