-- ===== src/Confirm/Attempts.antt =====
-- `withRetry` gives the first result that settles it.
use equinox.Prelude.{
  Option, none, some, ℕ, zero, suc, ◌+◌, ◌≤◌, ◌≡◌, ◌⊎◌, refl, sym, ap, subst, ◌∙◌, true, false,
  Bool-cases, inl, inr, List, [], ◌∷◌, ◌++◌, if◌then◌else◌, arith,
}
use equinox.Prelude.Int.{ℤ, pos, negsuc}
use equinox.DeadLetters.{retry_delay}
use equinox.Confirm.{Attempt, ErrorClass, Tried, settles, attempts_from, with_retry}

module _ {A E : Type 0} (classify : E → ErrorClass) (operation : ℕ → Attempt A E) where
  -- So many attempts from one on fail with a retryable error.
  unfoldable pub Unsettled : (attempt count : ℕ) → Type 0
  Unsettled a zero = Unit
  Unsettled a (suc n) =
      (settles classify operation false (operation a) ≡ false) × Unsettled (a + 1) n

  -- Of the attempts from one on, with so many left after it: how many come before the last.
  unfoldable pub First : (attempt left : ℕ) → Tried A E → Type 0
  First a left t =
      (before : ℕ) × (before ≤ left)
      × (t.calls ≡ a + before)
      × (t.result ≡ some (operation (a + before)))
      × Unsettled a before
      × ((before ≡ left) ⊎ (settles classify operation false (operation (a + before)) ≡ true))

  next_number : (a k : ℕ) → a + 1 + k ≡ a + suc k
  next_number a k = omega arith

  abbrev at : ℕ → Option (Attempt A E)
  at k = some (operation k)

  attempts_from-First :
      (left attempt : ℕ) (waits : List ℕ)
      → First attempt left (attempts_from classify operation left attempt waits)
  unfolding attempts_from First Unsettled
  attempts_from-First zero a waits =
      let same : a ≡ a + 0 = omega arith in (0, omega arith, same, ap at same, tt, inl refl)
  attempts_from-First (suc left) a waits =
      let rest = attempts_from classify operation left (a + 1) (waits ++ retry_delay a ∷ []) in
      let now : Tried A E = record { result = some (operation a); calls = a; waits = waits } in
      let same : a ≡ a + 0 = omega arith in
      elim (Bool-cases (settles classify operation false (operation a))) [
        | inl settled ↦
            subst (λ (t : Tried A E). First a (suc left) t)
              (sym (ap (λ b. if b then now else rest) settled))
              (
                0,
                omega arith,
                same,
                ap at same,
                tt,
                inr (ap (λ k. settles classify operation false (operation k)) (sym same) ∙ settled),
              )
        | inr again ↦
            let (k, low, counted, result, unsettled, last) =
              attempts_from-First left (a + 1) (waits ++ retry_delay a ∷ []) in
            let shift = next_number a k in
            subst (λ (t : Tried A E). First a (suc left) t)
              (sym (ap (λ b. if b then now else rest) again))
              (
                suc k,
                omega (arith, low),
                counted ∙ shift,
                result ∙ ap at shift,
                (again, unsettled),
                elim last [
                  | inl all ↦ inl (ap suc all)
                  | inr settled ↦ inr (
                      ap (λ n. settles classify operation false (operation n)) (sym shift)
                      ∙ settled)
                ],
              )
      ]

  -- No attempt is made and no error of one is thrown.
  abbrev pub Untried : Tried A E → Type 0
  Untried t = (t.calls ≡ 0) × (t.waits ≡ []) × (t.result ≡ none)

  abbrev pub Retried : ℤ → Tried A E → Type 0
  Retried (pos (suc more)) t = First 1 more t
  Retried _ t = Untried t

  -- With a maximum of 1 or more, `withRetry` makes one attempt at least and the maximum at most; its
  -- result is the one of the last attempt, every attempt before it failed with a retryable error,
  -- and the last one is a success, an error that is not retryable, or the last that is allowed. With
  -- a maximum below 1 it makes no attempt, does not wait, and throws no attempt's error.
  pub with_retry-First : (max : ℤ) → Retried max (with_retry classify operation max)
  unfolding with_retry
  with_retry-First (pos (suc more)) = attempts_from-First more 1 []
  with_retry-First (pos zero) = (refl, refl, refl)
  with_retry-First (negsuc n) = (refl, refl, refl)
