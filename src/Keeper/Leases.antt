-- ===== src/Keeper/Leases.antt =====
-- Leases exclude one another, and a fence never goes back.
use Prim.Native.String.{String}
use text.Mathlib.TextEquality.{eq_iff}
use text.Mathlib.TextPositions.{eq_refl}
use equinox.Prelude.{ℕ, ◌≤◌, ◌<◌, ◌≡◌, none, some, arith, List, [], ◌∷◌}
use equinox.Store.{ok, Lease, LeaseRow, OperationStatus, Stored, Store, Table}
use equinox.Keeper.{acquire, renew, release, finish}

-- The fence of a key's row, 0 where there is none.
abbrev pub fence_at : Table LeaseRow → String → ℕ
fence_at t k = elim (t k) [ none ↦ 0 | some row ↦ row.fence ]

-- A call that writes the lease table, by any worker.
pub data Call : Type 0 where
  acquires : String → String → ℕ → ℕ → Call
  renews : Lease → ℕ → ℕ → Call
  releases : Lease → Call

module _ {A : Type 0} where
  abbrev pub perform : Call → Store A → Store A
  perform (acquires key holder ttl now) s = (acquire key holder ttl now s).1
  perform (renews lease ttl now) s = (renew lease ttl now s).1
  perform (releases lease) s = (release lease s).1

  abbrev pub perform_all : List Call → Store A → Store A
  perform_all [] s = s
  perform_all (c ∷ cs) s = perform_all cs (perform c s)

  -- A granted lease is the key's row, outlives `now`, and has a fence above the one before it.
  granted :
      (key holder : String) (ttl now : ℕ) (s : Store A) {l : Lease} {s' : Store A}
      → acquire key holder ttl now s ≡ (ok (some l), s')
      → (l.key ≡ key)
        × (s'.leases key
            ≡ some (record {
              holder = holder;
              expires_at = l.expires_at;
              updated_at = now;
              fence = l.fence;
            }))
        × (fence_at s.leases key < l.fence)
        × (now < l.expires_at)
  unfolding acquire
  granted key holder ttl now s h = ground (arith, eq_refl key)

  refused_while_live :
      (key other : String) (ttl now : ℕ) (s : Store A) (row : LeaseRow) (m : Lease)
      → s.leases key ≡ some row
      → now < row.expires_at
      → let (r, t) = acquire key other ttl now s in ¬ (r ≡ ok (some m)) × (t ≡ s)
  unfolding acquire
  refused_while_live key other ttl now s row m e live = ground arith

  -- Whoever asks for the key right after it was granted, with whatever arguments, at a time before
  -- the lease expires, is not granted it, and the store stays as it was. The first holder is no
  -- exception: it has to renew.
  pub lease_excludes :
      (key holder other : String) (ttl now ttl' now' : ℕ) (s s' : Store A) (l m : Lease)
      → acquire key holder ttl now s ≡ (ok (some l), s')
      → now' < l.expires_at
      → let (r, t) = acquire key other ttl' now' s' in ¬ (r ≡ ok (some m)) × (t ≡ s')
  lease_excludes key holder other ttl now ttl' now' s s' l m h live =
      refused_while_live key other ttl' now' s' _ m (granted key holder ttl now s h).1 live

  perform_fence :
      (c : Call) (k : String) (s : Store A) → fence_at s.leases k ≤ fence_at (perform c s).leases k
  unfolding acquire renew release
  perform_fence (acquires key holder ttl now) k s = ground (arith, eq_iff key k)
  perform_fence (renews lease ttl now) k s = ground (arith, eq_iff lease.key k)
  perform_fence (releases lease) k s = ground (arith, eq_iff lease.key k)

  -- Over any calls by any workers, expiry and release included, no key's fence goes back.
  pub fence_monotone :
      (cs : List Call) (k : String) (s : Store A)
      → fence_at s.leases k ≤ fence_at (perform_all cs s).leases k
  fence_monotone [] k s = omega arith
  fence_monotone (c ∷ cs) k s =
      omega (arith, perform_fence c k s, fence_monotone cs k (perform c s))

  finish_fenced :
      (key owner : String) (status : OperationStatus) (v : Stored A) (l : Lease) (now : ℕ)
      (s : Store A)
      → l.fence < fence_at s.leases l.key
      → let (r, t) = finish key owner status v l now s in ¬ (r ≡ ok tt) × (t ≡ s)
  unfolding finish
  finish_fenced key owner status v l now s h = ground arith

  -- Once the key has been granted anew, a worker with the old lease can put no outcome on record:
  -- whatever calls came between and after, `finish` throws and changes nothing.
  pub old_lease_fenced_out :
      (key h₁ h₂ : String) (ttl₁ ttl₂ t₁ t₂ : ℕ) (s₀ s₁ s₂ : Store A) (l₁ l₂ : Lease)
      (between after : List Call) (op owner : String) (status : OperationStatus) (v : Stored A)
      (now : ℕ)
      → acquire key h₁ ttl₁ t₁ s₀ ≡ (ok (some l₁), s₁)
      → acquire key h₂ ttl₂ t₂ (perform_all between s₁) ≡ (ok (some l₂), s₂)
      → let s₃ = perform_all after s₂ in
        let (r, t) = finish op owner status v l₁ now s₃ in ¬ (r ≡ ok tt) × (t ≡ s₃)
  old_lease_fenced_out key h₁ h₂ ttl₁ ttl₂ t₁ t₂ s₀ s₁ s₂ l₁ l₂ between after op owner status v now
        e₁ e₂ =
      let g₁ = granted key h₁ ttl₁ t₁ s₀ e₁ in
      let g₂ = granted key h₂ ttl₂ t₂ (perform_all between s₁) e₂ in
      finish_fenced op owner status v l₁ now (perform_all after s₂) (
        ground (
          arith,
          g₁.0,
          g₁.1,
          g₂.1,
          g₂.2,
          fence_monotone between key s₁,
          fence_monotone after key s₂,
        ))
