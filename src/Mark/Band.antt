-- ===== src/Mark/Band.antt =====
-- The mark stays in its band around the index.
use Prim.Native.Nat.{max}
use equinox.Prelude.{
  ℕ, zero, suc, ◌+◌, ◌-◌, ◌*◌, ◌/◌, ◌^◌, ap, ◌∙◌, ◌≤◌, ◌<◌, ◌≡◌, Option, none, some, arith, true,
  false, Bool-cases, Option-cases, inl, inr, branches, some_injective, subst, ltb,
}
use equinox.Prelude.Int.{pos}
use equinox.Bytes.{
  Bytes, read_signed, read_unsigned, to_number, to_signed_number, floor_basis_points,
}
use equinox.Mark.{
  MarkQuote, clamp_to_index, quote, executable_mark, max_mark_deviation_bps, best_executable_side,
  header_admits, positive, quoted, mark_within,
}

-- A price in the band of `bps` basis points around the index, and above 0.
pub record IsBanded (index bps price : ℕ) : Type 0 where
  pub above : max 1 (index - index * bps / 10000) ≤ price
  pub below : price ≤ index + index * bps / 10000

-- The numbers of the clamp are exact.
pub record IsExact (index bps : ℕ) : Type 0 where
  pub exact_product : index * bps ≤ 2 ^ 53
  pub exact_sum : index ≤ 2 ^ 52

pub small_number : (n : ℕ) → n ≤ 2 ^ 53 → to_number n ≡ n
unfolding to_number
small_number n h = ground arith

small_quotient : (n : ℕ) → n ≤ 2 ^ 53 → floor_basis_points n ≡ n / 10000
unfolding floor_basis_points
small_quotient n h = ground arith

exact_deviation :
    (index bps : ℕ)
    → IsExact index bps
    → floor_basis_points (to_number (index * bps)) ≡ index * bps / 10000
exact_deviation index bps exact =
    ap floor_basis_points (small_number (index * bps) exact.exact_product)
    ∙ small_quotient (index * bps) exact.exact_product

clamp-IsBanded :
    (mark index bps : ℕ)
    → 0 < index
    → IsExact index bps
    → IsBanded index bps (clamp_to_index mark index bps)
unfolding clamp_to_index
clamp-IsBanded mark index bps h exact =
    let deviation = index * bps / 10000 in
    let product = exact.exact_product in
    let low : to_number (index - deviation) ≡ index - deviation =
      small_number (index - deviation) (omega (arith, exact.exact_sum)) in
    let high : to_number (index + deviation) ≡ index + deviation =
      small_number (index + deviation) (omega (arith, exact.exact_sum, product)) in
    rw (exact_deviation index bps exact, low, high)
      (record { above = ground arith; below = ground arith })

index-IsBanded : (index bps : ℕ) → 0 < index → IsBanded index bps index
index-IsBanded index bps h = ground arith

pub quote-IsBanded :
    (index bps : ℕ) (bid ask : Option ℕ)
    → 0 < index
    → IsExact index bps
    → IsBanded index bps (quote index bps bid ask).price
unfolding quote
quote-IsBanded index bps none none h exact = index-IsBanded index bps h
quote-IsBanded index bps (some bid) none h exact = clamp-IsBanded bid index bps h exact
quote-IsBanded index bps none (some ask) h exact = clamp-IsBanded ask index bps h exact
quote-IsBanded index bps (some bid) (some ask) h exact =
    branches (λ (q : MarkQuote). IsBanded index bps q.price) (ltb bid ask)
      (clamp-IsBanded (to_number (bid + ask) / 2) index bps h exact) (index-IsBanded index bps h)

positive-pos : (n : ℕ) {m : ℕ} → positive (pos n) ≡ some m → (m ≡ n) × (0 < n)
positive-pos zero h = ground arith
positive-pos (suc n) h = ground arith

marked-IsBanded :
    (index bps : ℕ) (bid ask : Option (Option ℕ)) {q : MarkQuote}
    → 0 < index
    → IsExact index bps
    → quoted index bps bid ask ≡ some (some q)
    → IsBanded index bps q.price
marked-IsBanded index bps none ask h exact e = ground arith
marked-IsBanded index bps (some bid) none h exact e = ground arith
marked-IsBanded index bps (some bid) (some ask) h exact e =
    let same = some_injective (some_injective e) in
    subst (λ (q : MarkQuote). IsBanded index bps q.price) same
      (quote-IsBanded index bps bid ask h exact)

within-IsBanded :
    (bytes : Bytes) (now index : ℕ) {q : MarkQuote}
    → IsExact index (max_mark_deviation_bps bytes)
    → mark_within bytes now (positive (pos index)) ≡ some (some q)
    → (0 < index) × IsBanded index (max_mark_deviation_bps bytes) q.price
within-IsBanded bytes now zero exact e = ground arith
within-IsBanded bytes now (suc n) exact e = (
  omega arith,
  marked-IsBanded (suc n) (max_mark_deviation_bps bytes)
      (best_executable_side bytes true (suc n) now) (best_executable_side bytes false (suc n) now)
      (omega arith) exact e,
)

-- Whatever orders the account's bytes hold, a mark that is computed lies in the band around the
-- oracle's price in the header, which is positive then, and is at least 1 itself, where the oracle's
-- price is at most 2 ^ 52 and the price times the deviation in basis points at most 2 ^ 53, so that
-- the numbers of the clamp are exact.
pub executable_mark-IsBanded :
    (bytes : Bytes) {q : MarkQuote} {index : ℕ}
    → read_signed 8 bytes 295 ≡ some (pos index)
    → IsExact index (max_mark_deviation_bps bytes)
    → executable_mark bytes ≡ some (some q)
    → (0 < index) × IsBanded index (max_mark_deviation_bps bytes) q.price
unfolding executable_mark to_signed_number
executable_mark-IsBanded bytes {index = index} e exact h = elim (Bool-cases (header_admits bytes)) [
  | inr a ↦ absurd (ground (arith, a))
  | inl a ↦ elim (Option-cases (read_unsigned 8 bytes 303)) [
    | inl n ↦ absurd (ground (arith, a, n))
    | inr (now, n) ↦
        let number = small_number index (omega (arith, exact.exact_sum)) in
        within-IsBanded bytes now index exact (rw (a, e, n, number) at h)
  ]
]
