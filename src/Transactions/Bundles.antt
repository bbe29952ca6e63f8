-- ===== src/Transactions/Bundles.antt =====
-- The V3 instructions name complete bundles of accounts, and carry what the plain ones carry.
use Prim.Native.String.{String}
use equinox.Prelude.{
  ℕ, ◌≡◌, refl, sym, ap, ◌∙◌, ◌⊎◌, inl, inr, false, Option, none, some, List, [], ◌∷◌, ◌++◌, ◌&&◌,
  not, ◌==◌, get_or, is_some, length, some_injective, arith, Option-cases, drop, subst,
}
use equinox.Prelude.Int.{ℤ, pos, negsuc}
use equinox.Program
use equinox.Program.{ProgramInstruction, decode, decode_as}
use equinox.Transactions.{PlaceOrderFields, place_order_data, AccountMeta, Instruction}
use equinox.Transactions.Writer.{Number, int_of}
use equinox.Transactions.Decoded
use equinox.Transactions.Sharded
use equinox.Transactions.Sharded.{
  ExecutionAccounts, DepositAccounts, WithdrawAccounts, ReconcileAccounts, is_zero, optional,
  is_complete, v3_execution_metas, nonce_refused, deposit_metas, withdraw_metas, reconcile_metas,
}
use equinox.Transactions.Slices.{
  slice, HasShards, append_assoc, append_nil, built-HasShards, slice_part, drop_all,
}
use equinox.Transactions.Agreement.{
  Command, place, cancel, cancel_all, replace, issue, meant, Deliverable, decode-issue, built,
  refused_or, bound,
}

-- The order writes that have a V3 form.
pub data OrderCommand : Type 0 where
  v3_place : PlaceOrderFields → OrderCommand
  v3_cancel : (seat : Number) (key nonce : ℤ) → OrderCommand
  v3_cancel_all : (seat count : Number) (nonce : ℤ) → OrderCommand
  v3_replace : (old_key : ℤ) → PlaceOrderFields → OrderCommand

abbrev pub plain : OrderCommand → Command
plain (v3_place f) = place f
plain (v3_cancel seat key nonce) = cancel seat key nonce
plain (v3_cancel_all seat count nonce) = cancel_all seat count nonce
plain (v3_replace key f) = replace key f

abbrev pub nonce_of : OrderCommand → ℤ
nonce_of (v3_place f) = get_or f.action_nonce (pos 0)
nonce_of (v3_cancel seat key nonce) = nonce
nonce_of (v3_cancel_all seat count nonce) = nonce
nonce_of (v3_replace key f) = get_or f.action_nonce (pos 0)

abbrev pub issue_v3 :
    {Address : Type 0}
    → (String → Option Address)
    → String
    → ExecutionAccounts Address
    → OrderCommand
    → Option (Instruction Address)
issue_v3 address program a (v3_place f) = Sharded.place_order_v3_instruction address program a f
issue_v3 address program a (v3_cancel seat key nonce) =
    Sharded.cancel_order_v3_instruction address program a seat key nonce
issue_v3 address program a (v3_cancel_all seat count nonce) =
    Sharded.cancel_all_v3_instruction address program a seat count nonce
issue_v3 address program a (v3_replace key f) =
    Sharded.replace_order_v3_instruction address program a key f

module _ {Address : Type 0} where
  complete_sizes :
      (pages seats events : List (AccountMeta Address))
      → not (is_complete pages seats events) ≡ false
      → (length pages ≡ 18) × (length seats ≡ 4) × (length events ≡ 4)
  complete_sizes pages seats events h = ground arith

  four_of :
      (events : List (AccountMeta Address)) → not (length events == 4) ≡ false → length events ≡ 4
  four_of events h = ground arith

  metas-HasShards :
      (a : ExecutionAccounts Address) {metas : List (AccountMeta Address)}
      → v3_execution_metas a false ≡ some metas
      → (before : List (AccountMeta Address)) × (metas ≡ before ++ optional a.session)
        × ((after : List (AccountMeta Address))
            → HasShards a.core a.book_pages a.seat_shards a.event_shards
                (a.authority ∷ after)
                (before ++ after))
  unfolding v3_execution_metas
  metas-HasShards a {metas} h =
      let (whole, named) = refused_or h in
      let (p, s, e) = complete_sizes a.book_pages a.seat_shards a.event_shards whole in
      let events = a.core ∷ a.book_pages ++ a.seat_shards ++ a.event_shards in
      (
        events ++ a.authority ∷ [],
        sym (some_injective named),
        λ after. rw (append_assoc events (a.authority ∷ []) after) (
            built-HasShards a.core a.book_pages a.seat_shards a.event_shards (a.authority ∷ after) p
              s e),
      )

zero_of : (v : ℕ) → (not false && not (v == 0)) ≡ false → v ≡ 0
zero_of v h = ground arith

-- The accounts of a V3 write with an action nonce: the core, 18 book pages, 4 seat shards, 4 event
-- shards and the authority, and after them the session if there is one; without it the nonce is 0.
unfoldable pub Bundled :
    {Address : Type 0} → ExecutionAccounts Address → ℤ → List (AccountMeta Address) → Type 0
Bundled {Address} a nonce accounts =
    let Ends = λ (rest : List (AccountMeta Address)).
      HasShards a.core a.book_pages a.seat_shards a.event_shards (a.authority ∷ rest) accounts in
    ((m : AccountMeta Address) × (a.session ≡ some m) × Ends (m ∷ []))
    ⊎ ((a.session ≡ none) × (nonce ≡ pos 0) × Ends [])

no_session : {A : Type 0} (o : Option A) → is_some o ≡ false → o ≡ none
no_session none h = refl
no_session (some x) h = ground arith

nonce_zero : (nonce : ℤ) → (not false && not (is_zero nonce)) ≡ false → nonce ≡ pos 0
nonce_zero (pos v) h = ap pos (zero_of v h)
nonce_zero (negsuc v) h = ground arith

bundled :
    {Address : Type 0} (a : ExecutionAccounts Address) (nonce : ℤ)
    (metas : List (AccountMeta Address))
    → nonce_refused a nonce ≡ false
    → v3_execution_metas a false ≡ some metas
    → Bundled a nonce metas
unfolding Bundled
bundled {Address} a nonce metas fine named =
    let (before, same, shards) = metas-HasShards a named in
    let ends = λ (rest : List (AccountMeta Address)) (at : metas ≡ before ++ rest).
      subst (λ t. HasShards a.core a.book_pages a.seat_shards a.event_shards (a.authority ∷ rest) t)
        (sym at) (shards rest) in
    elim (Option-cases a.session) [
      | inr (m, e) ↦ inl (m, e, ends (m ∷ []) (same ∙ ap (λ o. before ++ optional o) e))
      | inl e ↦ inr (
        e,
        nonce_zero nonce (subst (λ o. (not (is_some o) && not (is_zero nonce)) ≡ false) e fine),
        ends [] (same ∙ ap (λ o. before ++ optional o) e),
      )
    ]

-- A V3 write behind the checks of its nonce and bundle.
bundle_kept :
    {Address : Type 0} (address : String → Option Address) (program : String)
    (a : ExecutionAccounts Address) (c : OrderCommand) {i : Instruction Address}
    → issue_v3 address program a c ≡ some i
    → (nonce_refused a (nonce_of c) ≡ false)
      × ((metas : List (AccountMeta Address)) × (v3_execution_metas a false ≡ some metas)
          × (issue address program metas (plain c) ≡ some i))
bundle_kept address program a (v3_place f) h =
    let (fine, rest) = refused_or h in (fine, bound (v3_execution_metas a false) _ rest)
bundle_kept address program a (v3_cancel seat key nonce) h =
    let (fine, rest) = refused_or h in (fine, bound (v3_execution_metas a false) _ rest)
bundle_kept address program a (v3_cancel_all seat count nonce) h =
    let (fine, rest) = refused_or h in (fine, bound (v3_execution_metas a false) _ rest)
bundle_kept address program a (v3_replace key f) h =
    let (fine, rest) = refused_or h in (fine, bound (v3_execution_metas a false) _ rest)

issue_accounts :
    {Address : Type 0} (address : String → Option Address) (program : String)
    (metas : List (AccountMeta Address)) (c : OrderCommand) {i : Instruction Address}
    → issue address program metas (plain c) ≡ some i
    → Deliverable (plain c) × (i.accounts ≡ metas)
issue_accounts address program metas (v3_place f) h = (tt, (built address _ program metas h).1)
issue_accounts address program metas (v3_cancel seat key nonce) h =
    (tt, (built address _ program metas h).1)
issue_accounts address program metas (v3_cancel_all seat count nonce) h =
    (tt, (built address _ program metas h).1)
issue_accounts address program metas (v3_replace key f) h =
    let (place_bytes, ordered, rest) = bound (place_order_data f) _ h in
    (tt, (built address _ program metas rest).1)

-- An order write in its V3 form names the core, the 18 book pages, the 4 seat shards, the 4 event
-- shards and the authority in this order, and exactly the session after them if there is one, which
-- is so unless its nonce is zero; and the program decodes it to what the plain write means.
pub issue_v3-Bundled :
    {Address : Type 0} (address : String → Option Address) (program : String)
    (a : ExecutionAccounts Address) (c : OrderCommand) {i : Instruction Address}
    → issue_v3 address program a c ≡ some i
    → (decode i.payload ≡ some (meant (plain c))) × Bundled a (nonce_of c) i.accounts
issue_v3-Bundled address program a c {i} h =
    let (fine, sent) = bundle_kept address program a c h in
    let (metas, named, issued) = sent in
    let (ready, same) = issue_accounts address program metas c issued in
    (
      decode-issue address program metas (plain c) ready issued,
      rw same (bundled a (nonce_of c) metas fine named),
    )

-- The V3 custody writes.
pub data Custody (Address : Type 0) : Type 0 where
  v3_deposit : DepositAccounts Address → Number → ℤ → Custody Address
  v3_withdraw : WithdrawAccounts Address → Number → ℤ → Custody Address
  v3_reconcile : ReconcileAccounts Address → Custody Address

abbrev pub issue_custody :
    {Address : Type 0}
    → (String → Option Address)
    → String
    → Custody Address
    → Option (Instruction Address)
issue_custody address program (v3_deposit a seat amount) =
    Sharded.deposit_collateral_v3_instruction address program a seat amount
issue_custody address program (v3_withdraw a seat amount) =
    Sharded.withdraw_collateral_v3_instruction address program a seat amount
issue_custody address program (v3_reconcile a) =
    Sharded.reconcile_vault_v3_instruction address program a

abbrev pub meant_custody : {Address : Type 0} → Custody Address → ProgramInstruction
meant_custody (v3_deposit a seat amount) = Program.deposit_collateral_v3 (int_of seat) amount
meant_custody (v3_withdraw a seat amount) = Program.withdraw_collateral_v3 (int_of seat) amount
meant_custody (v3_reconcile a) = Program.reconcile_vault_v3

-- The accounts of a custody write: a deposit names the core, the seat's shard, the 4 event shards
-- and the accounts of the transfer; a withdrawal the bundle of an order without a session, and a
-- reconciliation the bundle without the authority, each before the accounts of the vault.
abbrev pub HasCustodyAccounts :
    {Address : Type 0} → Custody Address → List (AccountMeta Address) → Type 0
HasCustodyAccounts (v3_deposit a seat amount) accounts =
    (slice 0 2 accounts ≡ a.deposit_core ∷ a.seat_shard ∷ [])
    × (slice 2 4 accounts ≡ a.deposit_events)
    × (drop 6 accounts
        ≡ a.depositor ∷ a.token_source ∷ a.deposit_vault ∷ a.deposit_mint ∷ a.deposit_token ∷ [])
HasCustodyAccounts (v3_withdraw a seat amount) accounts =
    (a.execution.session ≡ none)
    × HasShards a.execution.core a.execution.book_pages a.execution.seat_shards
        a.execution.event_shards
        (a.execution.authority ∷ a.destination ∷ a.mint ∷ a.vault ∷ a.vault_authority
          ∷ a.token_program ∷ [])
        accounts
HasCustodyAccounts (v3_reconcile a) accounts =
    HasShards a.reconcile_core a.reconcile_pages a.reconcile_seats a.reconcile_events
      (a.reconcile_vault ∷ a.reconcile_mint ∷ a.reconcile_token ∷ []) accounts

deposit_placed :
    {Address : Type 0} (a : DepositAccounts Address) (seat : Number) (amount : ℤ)
    → length a.deposit_events ≡ 4
    → HasCustodyAccounts (v3_deposit a seat amount) (deposit_metas a)
deposit_placed a seat amount four =
    let rest =
      a.depositor ∷ a.token_source ∷ a.deposit_vault ∷ a.deposit_mint ∷ a.deposit_token ∷ [] in
    let front = a.deposit_core ∷ a.seat_shard ∷ a.deposit_events in
    (
      refl,
      slice_part 2 4 (a.deposit_core ∷ a.seat_shard ∷ []) a.deposit_events rest refl four,
      drop_all 6 front rest (omega (arith, four)),
    )

withdraw_placed :
    {Address : Type 0} (a : WithdrawAccounts Address) (seat : Number) (amount : ℤ)
    (metas : List (AccountMeta Address))
    → a.execution.session ≡ none
    → v3_execution_metas a.execution false ≡ some metas
    → HasCustodyAccounts (v3_withdraw a seat amount) (withdraw_metas metas a)
withdraw_placed a seat amount metas alone named =
    let rest = a.destination ∷ a.mint ∷ a.vault ∷ a.vault_authority ∷ a.token_program ∷ [] in
    let (before, same, shards) = metas-HasShards a.execution named in
    let plain_metas : metas ≡ before =
      same ∙ ap (λ o. before ++ optional o) alone ∙ append_nil before in
    (alone, rw plain_metas (shards rest))

-- A V3 custody write names exactly the accounts of its bundle, each at its place, 11 of a deposit, 33
-- of a withdrawal and 30 of a reconciliation, and the program decodes it to the same write.
pub issue_custody_complete :
    {Address : Type 0} (address : String → Option Address) (program : String) (c : Custody Address)
    {i : Instruction Address}
    → issue_custody address program c ≡ some i
    → (decode i.payload ≡ some (meant_custody c)) × HasCustodyAccounts c i.accounts
unfolding decode decode_as
issue_custody_complete address program (v3_deposit a seat amount) {i} h =
    let (four, rest) = refused_or {c = not (length a.deposit_events == 4)} h in
    let (bytes, named, at) = built address _ program (deposit_metas a) rest in
    (
      Decoded.deposit_collateral_v3_decoded seat amount bytes,
      subst (λ t. HasCustodyAccounts (v3_deposit a seat amount) t) (sym named)
          (deposit_placed a seat amount (four_of a.deposit_events four)),
    )
issue_custody_complete address program (v3_withdraw a seat amount) {i} h =
    let (alone, rest) = refused_or {c = is_some a.execution.session} h in
    let (metas, shape, rest') = bound (v3_execution_metas a.execution false) _ rest in
    let (bytes, named, at) = built address _ program (withdraw_metas metas a) rest' in
    (
      Decoded.withdraw_collateral_v3_decoded seat amount bytes,
      subst (λ t. HasCustodyAccounts (v3_withdraw a seat amount) t) (sym named)
          (withdraw_placed a seat amount metas (no_session a.execution.session alone) shape),
    )
issue_custody_complete address program (v3_reconcile a) {i} h =
    let (whole, rest) = refused_or h in
    let (bytes, named, at) = built address _ program (reconcile_metas a) rest in
    let (p, s, e) = complete_sizes a.reconcile_pages a.reconcile_seats a.reconcile_events whole in
    (
      Decoded.lone_decoded 55 refl bytes,
      subst (λ t. HasCustodyAccounts (v3_reconcile a) t) (sym named)
          (built-HasShards a.reconcile_core a.reconcile_pages a.reconcile_seats a.reconcile_events
            (a.reconcile_vault ∷ a.reconcile_mint ∷ a.reconcile_token ∷ []) p s e),
    )
