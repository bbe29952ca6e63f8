-- ===== src/Transactions/Slices.antt =====
-- Which accounts of an instruction stand where: the shards of the market behind its core.
use equinox.Prelude.{
  ℕ, zero, suc, ◌≤◌, ◌≡◌, refl, sym, ap, ◌∙◌, List, [], ◌∷◌, ◌++◌, arith, length, take, drop,
  length-append,
}

module _ {A : Type 0} where
  -- So many elements from a position on.
  abbrev pub slice : (at count : ℕ) → List A → List A
  slice at count xs = take count (drop at xs)

  -- The core at 0, its pages at 1, the seats at 19, the events at 23, and what comes from 27 on.
  pub record HasShards (core : A) (pages seats events rest accounts : List A) : Type 0 where
    pub core_at_0 : slice 0 1 accounts ≡ core ∷ []
    pub pages_at_1 : slice 1 18 accounts ≡ pages
    pub seats_at_19 : slice 19 4 accounts ≡ seats
    pub events_at_23 : slice 23 4 accounts ≡ events
    pub rest_at_27 : drop 27 accounts ≡ rest

  pub append_assoc : (xs ys zs : List A) → (xs ++ ys) ++ zs ≡ xs ++ (ys ++ zs)
  append_assoc [] ys zs = refl
  append_assoc (x ∷ xs) ys zs = ap (λ t. x ∷ t) (append_assoc xs ys zs)

  pub append_nil : (xs : List A) → xs ++ [] ≡ xs
  append_nil [] = refl
  append_nil (x ∷ xs) = ap (λ t. x ∷ t) (append_nil xs)

  pub drop_all : (n : ℕ) (xs ys : List A) → length xs ≡ n → drop n (xs ++ ys) ≡ ys
  drop_all zero [] ys h = refl
  drop_all zero (x ∷ xs) ys h = ground arith
  drop_all (suc n) [] ys h = ground arith
  drop_all (suc n) (x ∷ xs) ys h = drop_all n xs ys (omega (arith, h))

  take_within : (n : ℕ) (xs ys : List A) → n ≤ length xs → take n (xs ++ ys) ≡ take n xs
  take_within zero xs ys h = refl
  take_within (suc n) [] ys h = ground arith
  take_within (suc n) (x ∷ xs) ys h = ap (λ t. x ∷ t) (take_within n xs ys (omega (arith, h)))

  take_all : (n : ℕ) (xs : List A) → length xs ≡ n → take n xs ≡ xs
  take_all zero [] h = refl
  take_all zero (x ∷ xs) h = ground arith
  take_all (suc n) [] h = ground arith
  take_all (suc n) (x ∷ xs) h = ap (λ t. x ∷ t) (take_all n xs (omega (arith, h)))

  -- A part behind others that has its length.
  pub slice_part :
      (at count : ℕ) (before part after : List A)
      → length before ≡ at
      → length part ≡ count
      → slice at count (before ++ (part ++ after)) ≡ part
  slice_part at count before part after h k =
      ap (take count) (drop_all at before (part ++ after) h)
      ∙ take_within count part after (omega (arith, k))
      ∙ take_all count part k

  shards_placed :
      (core : A) (pages seats events rest : List A)
      → length pages ≡ 18
      → length seats ≡ 4
      → length events ≡ 4
      → HasShards core pages seats events rest (core ∷ (pages ++ (seats ++ (events ++ rest))))
  shards_placed core pages seats events rest p s e =
      let upto_seats = core ∷ pages in
      let upto_events = core ∷ (pages ++ seats) in
      let whole = core ∷ ((pages ++ seats) ++ events) in
      let two = length-append pages seats in
      let three = length-append (pages ++ seats) events in
      let behind = append_assoc upto_seats seats (events ++ rest) in
      record {
        core_at_0 = refl;
        pages_at_1 = slice_part 1 18 (core ∷ []) pages (seats ++ (events ++ rest)) refl p;
        seats_at_19 = slice_part 19 4 upto_seats seats (events ++ rest) (omega (arith, p)) s;
        events_at_23 =
            ap (slice 23 4) (sym behind)
            ∙ slice_part 23 4 upto_events events rest (omega (arith, p, s, two)) e;
        rest_at_27 =
            ap (drop 27) (sym behind ∙ sym (append_assoc upto_events events rest))
            ∙ drop_all 27 whole rest (omega (arith, p, s, e, two, three));
      }

  -- The list as the code builds it.
  pub built-HasShards :
      (core : A) (pages seats events rest : List A)
      → length pages ≡ 18
      → length seats ≡ 4
      → length events ≡ 4
      → HasShards core pages seats events rest (core ∷ pages ++ seats ++ events ++ rest)
  built-HasShards core pages seats events rest p s e =
      let same =
        append_assoc (core ∷ pages ++ seats) events rest
        ∙ append_assoc (core ∷ pages) seats (events ++ rest) in
      rw same (shards_placed core pages seats events rest p s e)
