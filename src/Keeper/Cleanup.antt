-- ===== src/Keeper/Cleanup.antt =====
-- What `cleanup` may delete.
use Prim.Native.String.{String}
use equinox.Prelude.{ℕ, ◌≡◌, true, some, arith}
use equinox.Store.{ok, is_pending, Operation, Store}
use equinox.Keeper.{cleanup, reserve}

module _ {A : Type 0} where
  -- A pending operation outlives every cleanup, however late: its key cannot be reserved again
  -- afterwards, and the row stays as it was.
  pub pending_survives_cleanup :
      (key owner hash : String) (ttl now now' : ℕ) (s : Store A) {row : Operation A}
      → s.operations key ≡ some row
      → is_pending row.status ≡ true
      → let t = (cleanup now s).1 in
        let (r, u) = reserve key owner hash ttl now' t in
        ¬ (r ≡ ok true) × (u.operations key ≡ some row)
  unfolding cleanup reserve
  pending_survives_cleanup key owner hash ttl now now' s e p = ground arith
