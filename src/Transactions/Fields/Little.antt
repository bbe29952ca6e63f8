-- ===== src/Transactions/Fields/Little.antt =====
-- Little-endian bytes pushed and read.
use equinox.Prelude.{
  ℕ, zero, suc, ◌*◌, ◌/◌, ◌%◌, ◌^◌, ◌<◌, ◌≡◌, refl, sym, ap, ◌∙◌, some, [], ◌∷◌, ◌++◌, length, drop,
  take, arith,
}
use equinox.Bytes.{Bytes, le_prefix, read_unsigned}
use equinox.Bytes.Codec.{pow_bytes}
use equinox.Transactions.Writer.{push_bytes}
use native.Mathlib.Nat.{pow-suc}

unfoldable pub le_bytes : ℕ → ℕ → Bytes
le_bytes zero v = []
le_bytes (suc n) v = v % 256 ∷ le_bytes n (v / 256)

pub append_assoc : (xs ys zs : Bytes) → (xs ++ ys) ++ zs ≡ xs ++ (ys ++ zs)
append_assoc [] ys zs = refl
append_assoc (x ∷ xs) ys zs = ap (λ (t : Bytes). x ∷ t) (append_assoc xs ys zs)

pub append_nil : (xs : Bytes) → xs ++ [] ≡ xs
append_nil [] = refl
append_nil (x ∷ xs) = ap (λ (t : Bytes). x ∷ t) (append_nil xs)

pub push_bytes-append : (n v : ℕ) (bs : Bytes) → push_bytes n v bs ≡ bs ++ le_bytes n v
unfolding push_bytes le_bytes
push_bytes-append zero v bs = sym (append_nil bs)
push_bytes-append (suc n) v bs =
    rw (push_bytes-append n (v / 256) (bs ++ v % 256 ∷ []))
      (append_assoc bs (v % 256 ∷ []) (le_bytes n (v / 256)))

pub length-le_bytes : (n v : ℕ) → length (le_bytes n v) ≡ n
unfolding le_bytes
length-le_bytes zero v = refl
length-le_bytes (suc n) v = ap suc (length-le_bytes n (v / 256))

pub le_prefix-le_bytes :
    (n v : ℕ) (rest : Bytes) → v < 256 ^ n → le_prefix n (le_bytes n v ++ rest) ≡ some v
unfolding le_bytes le_prefix
le_prefix-le_bytes zero v rest h = ap some (omega arith)
le_prefix-le_bytes (suc n) v rest h =
    let small : v / 256 < 256 ^ n = omega (arith, pow-suc 256 n) in
    rw (le_prefix-le_bytes n (v / 256) rest small) (ap some (omega arith))

pub drop-append : (xs ys : Bytes) → drop (length xs) (xs ++ ys) ≡ ys
drop-append [] ys = refl
drop-append (x ∷ xs) ys = drop-append xs ys

pub take-append : (xs ys : Bytes) → take (length xs) (xs ++ ys) ≡ xs
take-append [] [] = refl
take-append [] (y ∷ ys) = refl
take-append (x ∷ xs) ys = ap (λ (t : Bytes). x ∷ t) (take-append xs ys)

pub read_unsigned-push :
    (n v : ℕ) (bs rest : Bytes)
    → v < 2 ^ (8 * n)
    → read_unsigned n (push_bytes n v bs ++ rest) (length bs) ≡ some v
unfolding read_unsigned
read_unsigned-push n v bs rest h =
    let whole : push_bytes n v bs ++ rest ≡ bs ++ (le_bytes n v ++ rest) =
      ap (λ (t : Bytes). t ++ rest) (push_bytes-append n v bs)
      ∙ append_assoc bs (le_bytes n v) rest in
    let tail : drop (length bs) (push_bytes n v bs ++ rest) ≡ le_bytes n v ++ rest =
      ap (λ (t : Bytes). drop (length bs) t) whole ∙ drop-append bs (le_bytes n v ++ rest) in
    ap (λ (t : Bytes). le_prefix n t) tail
    ∙ le_prefix-le_bytes n v rest (omega (arith, pow_bytes n))
