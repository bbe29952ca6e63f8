-- ===== src/Confirm/Polls.antt =====
-- The polls end, and an outcome is what some poll showed.
use equinox.Prelude.{
  ℕ, zero, suc, ◌+◌, ◌*◌, ◌≤◌, ◌<◌, ◌≡◌, ◌⊎◌, refl, sym, ap, subst, ◌∙◌, Bool, true, false, Option,
  none, some, Option-cases, Bool-cases, ltb→lt, some_injective, inl, inr, ltb, if◌then◌else◌, arith,
}
use equinox.Confirm.{
  ConfirmOptions, Poll, Outcome, timeout, rejected, blockhash_expired, transaction_failed, reached,
  thrown, replied, SignatureStatus, rank, target_rank, Target, to_confirmed, to_finalized,
  returned_or, Commitment, processed, confirmed, finalized, landed, not_observed, Reply,
  reached_commitment, poll_once, observed, confirm_from, confirm_transaction,
}

-- Each poll is taken at least the interval after the one before, as `sleep` promises.
abbrev pub Paced : ConfirmOptions → (ℕ → Poll) → Type 0
Paced options polls = (i : ℕ) → (polls i).clock + options.poll_interval_ms ≤ (polls (i + 1)).clock

late_timeout :
    (options : ConfirmOptions) (deadline : ℕ) (poll : Poll)
    → deadline ≤ poll.clock
    → poll_once options deadline poll ≡ some timeout
unfolding poll_once
late_timeout options deadline poll h =
    let late : ltb poll.clock deadline ≡ false = ground arith in simp late refl

confirm_from_ends :
    (options : ConfirmOptions) (deadline : ℕ) (polls : ℕ → Poll) (k i : ℕ)
    → Paced options polls
    → deadline ≤ (polls i).clock + k * options.poll_interval_ms
    → (o : Outcome) × (confirm_from options deadline polls (suc k) i ≡ some o)
unfolding confirm_from
confirm_from_ends options deadline polls zero i paced h = (
  timeout,
  ap (λ o. returned_or o none) (late_timeout options deadline (polls i) (omega (arith, h))),
)
confirm_from_ends options deadline polls (suc k) i paced h =
    let rest = confirm_from options deadline polls (suc k) (i + 1) in
    elim (Option-cases (poll_once options deadline (polls i))) [
      | inl again ↦
          let (o, ends) =
            confirm_from_ends options deadline polls k (i + 1) paced (omega (arith, h, paced i)) in
          (o, ap (λ p. returned_or p rest) again ∙ ends)
      | inr (o, last) ↦ (o, ap (λ p. returned_or p rest) last)
    ]

-- With polls at least the interval apart, `confirmTransaction` returns within as many rounds as
-- intervals fit into the timeout, rounded up, and one more, whatever the node answers.
pub confirm_transaction_ends :
    (options : ConfirmOptions) (started : ℕ) (polls : ℕ → Poll) (k : ℕ)
    → Paced options polls
    → started ≤ (polls 0).clock
    → options.timeout_ms ≤ k * options.poll_interval_ms
    → (o : Outcome) × (confirm_transaction options started polls (suc k) ≡ some o)
unfolding confirm_transaction
confirm_transaction_ends options started polls k paced h enough =
    confirm_from_ends options (started + options.timeout_ms) polls k 0 paced
      (omega (arith, h, enough))

-- What a poll must have shown for an outcome.
unfoldable pub Shown : ConfirmOptions → (deadline : ℕ) → Poll → Outcome → Type 0
Shown options deadline poll timeout = deadline ≤ poll.clock
Shown options deadline poll rejected =
    (poll.clock < deadline)
    × ((poll.status ≡ thrown) ⊎ ((poll.status ≡ replied none) × (poll.block_height ≡ thrown)))
Shown options deadline poll blockhash_expired =
    (poll.clock < deadline)
    × (poll.status ≡ replied none)
    × ((height : ℕ) × (poll.block_height ≡ replied height)
        × (options.last_valid_block_height < height))
Shown options deadline poll transaction_failed =
    (poll.clock < deadline)
    × ((status : SignatureStatus) × (poll.status ≡ replied (some status)) × (status.failed ≡ true))
Shown options deadline poll (reached c) =
    (poll.clock < deadline)
    × ((status : SignatureStatus) × (poll.status ≡ replied (some status))
        × (status.failed ≡ false)
        × (status.confirmation_status ≡ some c)
        × (target_rank options.target_commitment ≤ rank c))

no_target : (t : Target) → target_rank t ≤ 0 → ⊥
no_target to_confirmed h = omega arith
no_target to_finalized h = omega arith

reached-Shown :
    (options : ConfirmOptions) (deadline : ℕ) (poll : Poll) (status : SignatureStatus)
    (c : Commitment) {o : Outcome}
    → poll.clock < deadline
    → poll.status ≡ replied (some status)
    → status.failed ≡ false
    → status.confirmation_status ≡ some c
    → target_rank options.target_commitment ≤ rank c
    → reached_commitment c ≡ o
    → Shown options deadline poll o
unfolding Shown
reached-Shown options deadline poll status processed h s f e r refl_o =
    absurd (no_target options.target_commitment r)
reached-Shown options deadline poll status confirmed h s f e r same =
    subst (λ o. Shown options deadline poll o) same (h, (status, s, f, e, r))
reached-Shown options deadline poll status finalized h s f e r same =
    subst (λ o. Shown options deadline poll o) same (h, (status, s, f, e, r))

landed-Shown :
    (options : ConfirmOptions) (deadline : ℕ) (poll : Poll) (status : SignatureStatus) (b : Bool)
    (c : Option Commitment) {o : Outcome}
    → poll.clock < deadline
    → poll.status ≡ replied (some status)
    → status.failed ≡ b
    → status.confirmation_status ≡ c
    → landed options b c ≡ some o
    → Shown options deadline poll o
unfolding Shown
landed-Shown options deadline poll status true c h s f e l =
    subst (λ o. Shown options deadline poll o) (some_injective l) (h, (status, s, f))
landed-Shown options deadline poll status false none h s f e l = ground arith
landed-Shown options deadline poll status false (some c) {o} h s f e l =
    let r : (target_rank options.target_commitment ≤ rank c)
        × (some (reached_commitment c) ≡ some o) =
      ground arith in
    reached-Shown options deadline poll status c h s f e r.0 (some_injective r.1)

height-Shown :
    (options : ConfirmOptions) (deadline : ℕ) (poll : Poll) (height : Reply ℕ) {o : Outcome}
    → poll.clock < deadline
    → poll.status ≡ replied none
    → poll.block_height ≡ height
    → not_observed options height ≡ some o
    → Shown options deadline poll o
unfolding Shown
height-Shown options deadline poll thrown h s e l =
    subst (λ o. Shown options deadline poll o) (some_injective l) (h, inr (s, e))
height-Shown options deadline poll (replied height) {o} h s e l =
    let r : (options.last_valid_block_height < height) × (some blockhash_expired ≡ some o) =
      ground arith in
    subst (λ o. Shown options deadline poll o) (some_injective r.1) (h, s, (height, e, r.0))

observed-Shown :
    (options : ConfirmOptions) (deadline : ℕ) (poll : Poll)
    (status : Reply (Option SignatureStatus)) {o : Outcome}
    → poll.clock < deadline
    → poll.status ≡ status
    → observed options status poll.block_height ≡ some o
    → Shown options deadline poll o
unfolding Shown
observed-Shown options deadline poll thrown h s l =
    subst (λ o. Shown options deadline poll o) (some_injective l) (h, inl s)
observed-Shown options deadline poll (replied (some status)) h s l =
    landed-Shown options deadline poll status status.failed status.confirmation_status h s refl refl
      l
observed-Shown options deadline poll (replied none) h s l =
    height-Shown options deadline poll poll.block_height h s refl l

poll_once-Shown :
    (options : ConfirmOptions) (deadline : ℕ) (poll : Poll) {o : Outcome}
    → poll_once options deadline poll ≡ some o
    → Shown options deadline poll o
unfolding poll_once Shown
poll_once-Shown options deadline poll {o} h = elim (Bool-cases (ltb poll.clock deadline)) [
  | inl early ↦
      observed-Shown options deadline poll poll.status (ltb→lt poll.clock deadline early) refl (
        sym (
          ap (λ b. if b then observed options poll.status poll.block_height else some timeout)
            early)
        ∙ h)
  | inr late ↦
      let ended : timeout ≡ o = some_injective (
        sym (
          ap (λ b. if b then observed options poll.status poll.block_height else some timeout) late)
        ∙ h) in
      subst (λ o. Shown options deadline poll o) ended (ground arith)
]

confirm_from-Shown :
    (options : ConfirmOptions) (deadline : ℕ) (polls : ℕ → Poll) (fuel i : ℕ) {o : Outcome}
    → confirm_from options deadline polls fuel i ≡ some o
    → (j : ℕ) × Shown options deadline (polls j) o
unfolding confirm_from
confirm_from-Shown options deadline polls zero i h = ground arith
confirm_from-Shown options deadline polls (suc fuel) i {o} h =
    let rest = confirm_from options deadline polls fuel (i + 1) in
    elim (Option-cases (poll_once options deadline (polls i))) [
      | inl again ↦
          confirm_from-Shown options deadline polls fuel (i + 1)
            (sym (ap (λ p. returned_or p rest) again) ∙ h)
      | inr (last, e) ↦ (
        i,
        poll_once-Shown options deadline (polls i) (e ∙ sym (ap (λ p. returned_or p rest) e) ∙ h),
      )
    ]

-- The outcome of `confirmTransaction` is what one of its polls showed: a commitment is at least the
-- target and of a status without an error, a failure is of a status with one, expiry is of an
-- unseen signature above the last valid height, and a timeout is past the deadline.
pub confirm_transaction-Shown :
    (options : ConfirmOptions) (started : ℕ) (polls : ℕ → Poll) (fuel : ℕ) {o : Outcome}
    → confirm_transaction options started polls fuel ≡ some o
    → (j : ℕ) × Shown options (started + options.timeout_ms) (polls j) o
unfolding confirm_transaction
confirm_transaction-Shown options started polls fuel h =
    confirm_from-Shown options (started + options.timeout_ms) polls fuel 0 h
