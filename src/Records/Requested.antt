-- ===== src/Records/Requested.antt =====
-- The highest sequence that was requested.
use Prim.Native.Nat.{max}
use equinox.Prelude.{◌≡◌, List, [], ◌∷◌, arith}
use equinox.Records.{CommitRecord, record_commit, last_requested_sequence}

-- Recording a commit, with whatever status and whether or not its sequence is there already, makes
-- the last requested sequence the greater of what it was and the commit's.
pub last_requested_sequence-record_commit :
    (c : CommitRecord) (rows : List CommitRecord)
    → last_requested_sequence (record_commit c rows) ≡ max c.sequence (last_requested_sequence rows)
unfolding last_requested_sequence record_commit
last_requested_sequence-record_commit c [] = omega arith
last_requested_sequence-record_commit c (r ∷ rs) =
    ground (arith, last_requested_sequence-record_commit c rs)
