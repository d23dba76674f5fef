-- ===== src/Base/Table.antt =====
-- SQL tables as lists of rows in insertion order, with the statements that the source issues.
use juno_exchange_kit.Base.{
  ℕ, ◌+◌, ◌≤◌, ◌≡◌, refl, ap, inl, inr, Bool, true, Option, none, some, List, [], ◌∷◌, ◌++◌, arith,
  if◌then◌else◌, Bool-cases, take, drop,
}
use juno_exchange_kit.Base.Int.{ℤ, pos, ◌+ℤ◌, int_laws}

module _ {ℓ} {A : Type ℓ} where
  -- SELECT … WHERE p, read by QueryRow: the first row, or sql.ErrNoRows.
  unfoldable pub select_first : (A → Bool) → List A → Option A
  select_first p [] = none
  select_first p (r ∷ rs) = if p r then some r else select_first p rs

  -- SELECT … WHERE p
  unfoldable pub select_where : (A → Bool) → List A → List A
  select_where p [] = []
  select_where p (r ∷ rs) = let rest = select_where p rs in if p r then r ∷ rest else rest

  -- UPDATE … SET f WHERE p
  unfoldable pub update_where : (A → Bool) → (A → A) → List A → List A
  update_where p f [] = []
  update_where p f (r ∷ rs) = (if p r then f r else r) ∷ update_where p f rs

  -- SELECT COUNT(1) … WHERE p
  unfoldable pub count_where : (A → Bool) → List A → ℕ
  count_where p [] = 0
  count_where p (r ∷ rs) = (if p r then 1 else 0) + count_where p rs

  -- SUM(f)
  unfoldable pub sum_of : (A → ℤ) → List A → ℤ
  sum_of f [] = pos 0
  sum_of f (r ∷ rs) = f r +ℤ sum_of f rs

  abbrev pub All {κ} : (A → Type κ) → List A → Type κ
  All P [] = Unit
  All P (r ∷ rs) = P r × All P rs

module _ {ℓ} {A : Type ℓ} where
  -- A row goes behind the rows that come before it.
  unfoldable pub insert_by : (A → A → Bool) → A → List A → List A
  insert_by before x [] = x ∷ []
  insert_by before x (y ∷ ys) = if before y x then y ∷ insert_by before x ys else x ∷ y ∷ ys

  -- ORDER BY, and sort.Slice: `before` is the strict order. Equal rows stay in their order.
  unfoldable pub sort_by : (A → A → Bool) → List A → List A
  unfolding insert_by
  sort_by before [] = []
  sort_by before (x ∷ xs) = insert_by before x (sort_by before xs)

  -- LIMIT n OFFSET k
  unfoldable pub page_of : ℕ → ℕ → List A → List A
  page_of n k rs = take n (drop k rs)

module _ {ℓ} {A : Type ℓ} where
  pub sum_of-append :
      (f : A → ℤ) (rs ts : List A) → sum_of f (rs ++ ts) ≡ sum_of f rs +ℤ sum_of f ts
  unfolding sum_of
  sum_of-append f [] ts = omega int_laws
  sum_of-append f (r ∷ rs) ts = rw (sum_of-append f rs ts) (omega int_laws)

  pub count_where-append :
      (p : A → Bool) (rs ts : List A)
      → count_where p (rs ++ ts) ≡ count_where p rs + count_where p ts
  unfolding count_where
  count_where-append p [] ts = omega arith
  count_where-append p (r ∷ rs) ts = omega (arith, count_where-append p rs ts)

  pub count_where-none :
      (p : A → Bool) (rs : List A) → select_first p rs ≡ none → count_where p rs ≡ 0
  unfolding count_where select_first
  count_where-none p [] h = refl
  count_where-none p (r ∷ rs) h = ground (arith, count_where-none p rs)

  pub select_first-none :
      (p : A → Bool) (rs : List A) → count_where p rs ≡ 0 → select_first p rs ≡ none
  unfolding count_where select_first
  select_first-none p [] h = refl
  select_first-none p (r ∷ rs) h = ground (arith, select_first-none p rs)

  pub update_where_none :
      (p : A → Bool) (f : A → A) (rs : List A) → count_where p rs ≡ 0 → update_where p f rs ≡ rs
  unfolding count_where update_where
  update_where_none p f [] h = refl
  update_where_none p f (r ∷ rs) h = ground (arith, update_where_none p f rs)

  -- An update of the one row of a key changes a sum by the change of that row.
  pub sum_of-update_where :
      (g : A → ℤ) (p : A → Bool) (f : A → A) (r : A) (rs : List A)
      → select_first p rs ≡ some r
      → count_where p rs ≤ 1
      → sum_of g (update_where p f rs) +ℤ g r ≡ sum_of g rs +ℤ g (f r)
  unfolding count_where select_first update_where sum_of
  sum_of-update_where g p f r [] h k = cc
  sum_of-update_where g p f r (x ∷ rs) h k =
      grind (int_laws, sum_of-update_where g p f r rs, update_where_none p f rs)

  pub count_where-update_where :
      (q p : A → Bool) (f : A → A) (rs : List A)
      → ((r : A) → q (f r) ≡ q r)
      → count_where q (update_where p f rs) ≡ count_where q rs
  unfolding count_where update_where
  count_where-update_where q p f [] h = refl
  count_where-update_where q p f (r ∷ rs) h =
      ground (arith, h r, count_where-update_where q p f rs h)

  pub All-append {κ} : (P : A → Type κ) (rs ts : List A) → All P rs → All P ts → All P (rs ++ ts)
  All-append P [] ts hr ht = ht
  All-append P (r ∷ rs) ts hr ht = (hr.0, All-append P rs ts hr.1 ht)

  pub All-update_where {κ} :
      (P : A → Type κ) (p : A → Bool) (f : A → A) (rs : List A)
      → ((r : A) → p r ≡ true → P r → P (f r))
      → All P rs
      → All P (update_where p f rs)
  unfolding update_where
  All-update_where P p f [] h a = tt
  All-update_where P p f (r ∷ rs) h a = elim (Bool-cases (p r)) [
    | inl e ↦ rw e (h r e a.0, All-update_where P p f rs h a.1)
    | inr e ↦ rw e (a.0, All-update_where P p f rs h a.1)
  ]

  -- What a query returns is a row of the table, and satisfies the condition.
  pub select_first-All {κ} :
      (P : A → Type κ) (p : A → Bool) (r : A) (rs : List A)
      → select_first p rs ≡ some r
      → All P rs
      → P r × (p r ≡ true)
  unfolding select_first
  select_first-All P p r [] h a = absurd (ground arith)
  select_first-All P p r (x ∷ rs) h a = elim (Bool-cases (p x)) [
    | inl e ↦ let same : x ≡ r = ground arith in rw (← same) (a.0, e)
    | inr e ↦ select_first-All P p r rs (ground arith) a.1
  ]

  -- The row that an INSERT adds is found by a key that had none.
  pub select_first-append :
      (p : A → Bool) (r : A) (rs : List A)
      → select_first p rs ≡ none
      → p r ≡ true
      → select_first p (rs ++ r ∷ []) ≡ some r
  unfolding select_first
  select_first-append p r [] h e = rw e
  select_first-append p r (x ∷ rs) h e = ground (arith, select_first-append p r rs)

  -- The row that an UPDATE wrote is found by its key.
  pub select_first-update_where :
      (p : A → Bool) (f : A → A) (r : A) (rs : List A)
      → select_first p rs ≡ some r
      → ((x : A) → p (f x) ≡ p x)
      → select_first p (update_where p f rs) ≡ some (f r)
  unfolding select_first update_where
  select_first-update_where p f r [] h e = absurd (ground arith)
  select_first-update_where p f r (x ∷ rs) h e = elim (Bool-cases (p x)) [
    | inl k ↦ let same : x ≡ r = ground arith in rw k (rw (e x) (rw k (ap (λ y. some (f y)) same)))
    | inr k ↦ rw k (rw k (select_first-update_where p f r rs (ground arith) e))
  ]
