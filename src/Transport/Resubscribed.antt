-- ===== src/Transport/Resubscribed.antt =====
-- A connection that stays open until its answers arrive has all of its subscriptions again.
use equinox.Prelude.{
  ℕ, ◌+◌, ◌<◌, ◌≡◌, refl, sym, ap, subst, ◌∙◌, Bool, true, false, by_bool, none, some, List, [],
  ◌∷◌, ◌++◌, if◌then◌else◌, arith, ◌==◌, length, All,
}
use equinox.Transport.Restored.{handle_open_subscriptions}
use equinox.Transport.{
  Transport, Pending, restoring, Subscription, Table, answer, handle_open, restore_subscriptions,
  handle_message, restore_all, send, is_open, set, get, opened, answered,
}

-- The subscriptions that are asked for again.
abbrev pub kept : Table Subscription → List Subscription
kept [] = []
kept ((id, x) ∷ t) = if x.one_shot then kept t else x ∷ kept t

-- The requests for them, numbered from n on.
abbrev pub waiting : ℕ → List Subscription → Table Pending
waiting n [] = []
waiting n (x ∷ xs) = (n, restoring x) ∷ waiting (n + 1) xs

abbrev pub paired : List ℕ → List Subscription → Table Subscription
paired (r ∷ rs) (x ∷ xs) = (r, x) ∷ paired rs xs
paired _ _ = []

-- The answers to the requests from n on, in their order.
abbrev pub answers : ℕ → List ℕ → (now : ℕ) → Transport → Transport
answers n [] now s = s
answers n (r ∷ rs) now s = answers (n + 1) rs now (handle_message (answer n r) now s)

abbrev pub Distinct : List ℕ → Type 0
Distinct [] = Unit
Distinct (r ∷ rs) = All (λ q. (q == r) ≡ false) rs × Distinct rs

other_key : (j k : ℕ) → j < k → (j == k) ≡ false
other_key j k h = ground arith

own_key : (k : ℕ) → (k == k) ≡ true
own_key k = ground arith

module _ {V : Type 0} where
  abbrev Below : ℕ → Table V → Type 0
  Below n t = All (λ (p : ℕ × V). p.0 < n) t

  table_assoc : (a b c : Table V) → (a ++ b) ++ c ≡ a ++ (b ++ c)
  table_assoc [] b c = refl
  table_assoc (p ∷ a) b c = ap (λ (t : Table V). p ∷ t) (table_assoc a b c)

  table_nil : (a : Table V) → a ++ [] ≡ a
  table_nil [] = refl
  table_nil (p ∷ a) = ap (λ (t : Table V). p ∷ t) (table_nil a)

  set-Below : (t : Table V) (k : ℕ) (v : V) → Below k t → set t k v ≡ t ++ (k, v) ∷ []
  set-Below [] k v h = refl
  set-Below ((j, w) ∷ t) k v (less, h) =
      rw (other_key j k less) (ap (λ (u : Table V). (j, w) ∷ u) (set-Below t k v h))

  Below-next : (t : Table V) (k : ℕ) (v : V) → Below k t → Below (k + 1) (t ++ (k, v) ∷ [])
  Below-next [] k v h = (omega arith, tt)
  Below-next ((j, w) ∷ t) k v (less, h) = (omega (arith, less), Below-next t k v h)

  missing_head :
      (j k : ℕ) (w : V) (t : Table V)
      → get ((j, w) ∷ t) k ≡ none
      → ((j == k) ≡ false) × (get t k ≡ none)
  missing_head j k w t h = ground arith

  set_missing : (t : Table V) (k : ℕ) (v : V) → get t k ≡ none → set t k v ≡ t ++ (k, v) ∷ []
  set_missing [] k v h = refl
  set_missing ((j, w) ∷ t) k v h =
      let (other, absent) = missing_head j k w t h in
      rw other (ap (λ (u : Table V). (j, w) ∷ u) (set_missing t k v absent))

  missing_after :
      (t : Table V) (k : ℕ) (v : V) (q : ℕ)
      → get t q ≡ none
      → (q == k) ≡ false
      → get (t ++ (k, v) ∷ []) q ≡ none
  missing_after [] k v q h d = ground arith
  missing_after ((j, w) ∷ t) k v q h d =
      let (other, absent) = missing_head j q w t h in rw other (missing_after t k v q absent d)

  still_free :
      (t : Table V) (k : ℕ) (v : V) (qs : List ℕ)
      → All (λ q. get t q ≡ none) qs
      → All (λ q. (q == k) ≡ false) qs
      → All (λ q. get (t ++ (k, v) ∷ []) q ≡ none) qs
  still_free t k v [] h d = tt
  still_free t k v (q ∷ qs) (a, h) (e, d) = (missing_after t k v q a e, still_free t k v qs h d)

module _ (takes : ℕ → Bool) (takes_all : (id : ℕ) → takes id ≡ true) where
  send_taken :
      (x : Subscription) (s : Transport)
      → is_open s.socket ≡ true
      → send takes (restoring x) s ≡ record s {
        next_request_id = s.next_request_id + 1;
        pending = set s.pending s.next_request_id (restoring x);
        sent = s.sent ++ s.next_request_id ∷ [];
      }
  unfolding send
  send_taken x s h = simp (h, takes_all s.next_request_id) refl

  restore_all-waiting :
      (t : Table Subscription) (s : Transport)
      → is_open s.socket ≡ true
      → Below s.next_request_id s.pending
      → (restore_all takes t s).pending ≡ s.pending ++ waiting s.next_request_id (kept t)
  unfolding restore_all
  restore_all-waiting [] s h b = sym (table_nil s.pending)
  restore_all-waiting ((id, x) ∷ t) s h b =
      let n = s.next_request_id in
      let sent = send takes (restoring x) s in
      let taken = send_taken x s h in
      let listed : sent.pending ≡ s.pending ++ (n, restoring x) ∷ [] =
        ap (λ (u : Transport). u.pending) taken ∙ set-Below s.pending n (restoring x) b in
      let next : sent.next_request_id ≡ n + 1 = ap (λ (u : Transport). u.next_request_id) taken in
      let still : is_open sent.socket ≡ true = ap (λ (u : Transport). is_open u.socket) taken ∙ h in
      let below : Below sent.next_request_id sent.pending =
        subst (λ (k : ℕ). Below k sent.pending) (sym next)
          (subst (λ (u : Table Pending). Below (n + 1) u) (sym listed)
            (Below-next s.pending n (restoring x) b)) in
      by_bool
        (λ one.
          (if one then restore_all takes t s else restore_all takes t sent).pending
          ≡ s.pending ++ waiting n (if one then kept t else x ∷ kept t))
        x.one_shot (restore_all-waiting t s h b)
        (restore_all-waiting t sent still below
          ∙ ap (λ (k : ℕ). sent.pending ++ waiting k (kept t)) next
          ∙ ap (λ (u : Table Pending). u ++ waiting (n + 1) (kept t)) listed
          ∙ table_assoc s.pending ((n, restoring x) ∷ []) (waiting (n + 1) (kept t)))

-- One answer in order.
answer_taken :
    (n r now : ℕ) (x : Subscription) (rest : Table Pending) (s : Transport)
    → s.pending ≡ (n, restoring x) ∷ rest
    → handle_message (answer n r) now s
      ≡ record s { last_message_at = now; pending = rest; subscriptions = set s.subscriptions r x }
unfolding handle_message
answer_taken n r now x rest s e =
    ap
      (λ (p : Table Pending).
        answered (get p n) n (some r) (record s { last_message_at = now; pending = p }))
      e
    ∙ rw (own_key n, own_key n) refl

answers-paired :
    (n now : ℕ) (xs : List Subscription) (rs : List ℕ) (s : Transport)
    → s.pending ≡ waiting n xs
    → length rs ≡ length xs
    → Distinct rs
    → All (λ q. get s.subscriptions q ≡ none) rs
    → (answers n rs now s).subscriptions ≡ s.subscriptions ++ paired rs xs
answers-paired n now [] [] s e l d a = sym (table_nil s.subscriptions)
answers-paired n now [] (r ∷ rs) s e l d a = ground arith
answers-paired n now (x ∷ xs) [] s e l d a = ground arith
answers-paired n now (x ∷ xs) (r ∷ rs) s e l (d, ds) (a, as') =
    let told = handle_message (answer n r) now s in
    let taken = answer_taken n r now x (waiting (n + 1) xs) s e in
    let added : told.subscriptions ≡ s.subscriptions ++ (r, x) ∷ [] =
      ap (λ (u : Transport). u.subscriptions) taken ∙ set_missing s.subscriptions r x a in
    let free : All (λ q. get told.subscriptions q ≡ none) rs =
      subst (λ (u : Table Subscription). All (λ q. get u q ≡ none) rs) (sym added)
        (still_free s.subscriptions r x rs as' d) in
    answers-paired (n + 1) now xs rs told (ap (λ (u : Transport). u.pending) taken)
      (omega (arith, l)) ds free
    ∙ ap (λ (u : Table Subscription). u ++ paired rs xs) added
    ∙ table_assoc s.subscriptions ((r, x) ∷ []) (paired rs xs)

free_empty : (rs : List ℕ) → All (λ q. get {V = Subscription} [] q ≡ none) rs
free_empty [] = tt
free_empty (r ∷ rs) = (refl, free_empty rs)

-- When a connection opens with nothing pending, and its socket takes every request, and the answers
-- to its requests then arrive in the order of the requests with nothing between them, with distinct
-- identifiers, the subscriptions are those of before that are not one-shot, in their order, each
-- under its new identifier.
pub subscriptions_restored :
    (takes : ℕ → Bool) (now later : ℕ) (s : Transport) (rs : List ℕ)
    → ((id : ℕ) → takes id ≡ true)
    → s.pending ≡ []
    → length rs ≡ length (kept s.subscriptions)
    → Distinct rs
    → (answers s.next_request_id rs later (handle_open takes now s)).subscriptions
      ≡ paired rs (kept s.subscriptions)
unfolding handle_open restore_subscriptions
subscriptions_restored takes now later s rs takes_all none_pending l d =
    let fresh : Transport = record s {
      socket = some opened;
      attempt = 0;
      last_message_at = now;
      heartbeat = true;
      subscriptions = [];
    } in
    let below : Below fresh.next_request_id fresh.pending =
      subst (λ (u : Table Pending). Below s.next_request_id u) (sym none_pending) tt in
    let asked : (handle_open takes now s).pending
        ≡ waiting s.next_request_id (kept s.subscriptions) =
      restore_all-waiting takes takes_all s.subscriptions fresh refl below
      ∙ ap (λ (u : Table Pending). u ++ waiting s.next_request_id (kept s.subscriptions))
          none_pending in
    let emptied : (handle_open takes now s).subscriptions ≡ [] =
      handle_open_subscriptions takes now s in
    let free : All (λ q. get (handle_open takes now s).subscriptions q ≡ none) rs =
      subst (λ (u : Table Subscription). All (λ q. get u q ≡ none) rs) (sym emptied)
        (free_empty rs) in
    answers-paired s.next_request_id later (kept s.subscriptions) rs (handle_open takes now s) asked
      l d free
    ∙ ap (λ (u : Table Subscription). u ++ paired rs (kept s.subscriptions)) emptied
