-- ===== src/Transactions/Fields/Written.antt =====
-- A chain of calls, read field by field.
use equinox.Prelude.{
  ℕ, zero, suc, ◌+◌, ◌≡◌, sym, ap, subst, ◌∙◌, none, some, Option-cases, inl, inr, List, [], ◌∷◌,
  ◌++◌, length, length-append, arith,
}
use equinox.Bytes.{Bytes}
use equinox.Transactions.Fields.Little.{append_assoc, append_nil}
use equinox.Transactions.Fields.Layout.{
  Field, byte_field, half_field, word_field, unsigned_field, signed_field, key_field, write_field,
  write_fields, width_of, Reads, Holds,
}
use equinox.Transactions.Fields.Added.{
  Added, byte-Added, half-Added, word-Added, unsigned-Added, signed-Added, key-Added,
}

-- A signed field has at least one byte.
abbrev pub Sound : List Field → Type 0
Sound [] = Unit
Sound (signed_field zero v ∷ fs) = ⊥
Sound (f ∷ fs) = Sound fs

write_field-Added :
    (f : Field) (fs : List Field) (before : Bytes) {after : Bytes}
    → Sound (f ∷ fs)
    → write_field f before ≡ some after
    → Added f before after × Sound fs
write_field-Added (byte_field v) fs before s h = (byte-Added v before h, s)
write_field-Added (half_field v) fs before s h = (half-Added v before h, s)
write_field-Added (word_field v) fs before s h = (word-Added v before h, s)
write_field-Added (unsigned_field n v) fs before s h = (unsigned-Added n v before h, s)
write_field-Added (signed_field zero v) fs before s h = absurd s
write_field-Added (signed_field (suc n) v) fs before s h = (signed-Added n v before h, s)
write_field-Added (key_field v) fs before s h = (key-Added v before h, s)

pub write_fields-none : (fs : List Field) {whole : Bytes} → write_fields fs none ≡ some whole → ⊥
write_fields-none [] h = ground arith
write_fields-none (f ∷ fs) h = write_fields-none fs h

-- What was written stands in front of what follows, and each field is read where it stands.
write_fields-Holds :
    (fs : List Field) (before : Bytes) {whole : Bytes}
    → Sound fs
    → write_fields fs (some before) ≡ some whole
    → ((tail : Bytes) × (whole ≡ before ++ tail)) × Holds whole (length before) fs
unfolding Added
write_fields-Holds [] before {whole} s h =
    let same : before ≡ whole = ground arith in
    (([], sym same ∙ sym (append_nil before)), ap (λ (t : Bytes). length t) (sym same))
write_fields-Holds (f ∷ fs) before {whole} s h = elim (Option-cases (write_field f before)) [
  | inl e ↦ absurd (write_fields-none fs (subst (λ w. write_fields fs w ≡ some whole) e h))
  | inr (after, e) ↦
      let step = write_field-Added f fs before s e in
      let added = step.0 in
      let later =
        write_fields-Holds fs after step.1 (subst (λ w. write_fields fs w ≡ some whole) e h) in
      let end : length after ≡ length before + width_of f =
        ap (λ (t : Bytes). length t) added.1
        ∙ length-append before added.0
        ∙ ap (λ (k : ℕ). length before + k) added.2 in
      (
        (
          added.0 ++ later.0.0,
          later.0.1
              ∙ ap (λ (t : Bytes). t ++ later.0.0) added.1
              ∙ append_assoc before added.0 later.0.0,
        ),
        (
          subst (λ (t : Bytes). Reads f t (length before)) (sym later.0.1) (added.3 later.0.0),
          subst (λ (o : ℕ). Holds whole o fs) end later.1,
        ),
      )
]

-- From the start of a writer on.
pub written :
    (fs : List Field) {whole : Bytes}
    → Sound fs
    → write_fields fs (some []) ≡ some whole
    → Holds whole 0 fs
written fs s h = (write_fields-Holds fs [] s h).1
