-- ===== src/Txplan/Borrow.antt =====
-- The borrowing loop of `splitNotesBalanced` ends within the turns that it is given.
use juno_exchange_kit.Base.{
  ℕ, ◌+◌, ◌≤◌, ◌<◌, ◌≡◌, refl, ap, ◌∙◌, subst, inl, inr, false, Option, none, some, List, [], ◌∷◌,
  ◌++◌, ltb, leb, length, set, get_or, ◌==◌, if◌then◌else◌, zero, suc, arith, Bool-cases,
  Option-cases, ◌⊎◌, length-set, length-append, length-replicate, replicate, ◌||◌, ◌%◌,
}
use juno_exchange_kit.Txplan.Chunks.{
  SpendableNote, Chunks, append_at, one_index, longest, last_note, but_last, move_note, borrow_step,
  borrow, deal, spendable_before, chunk_count, split_notes_balanced,
}
use juno_exchange_kit.Txplan.Split.{
  borrow_step-some, one_index-below, longest-below, length-append_at,
}
use juno_exchange_kit.Base.Int.{ℤ, pos, pos_part, ltb_ℤ}
use juno_exchange_kit.Base.Table.{sort_by}

-- The number of chunks of one note.
unfoldable pub single : List SpendableNote → ℕ
single c = if length c == 1 then 1 else 0

unfoldable pub singles : Chunks → ℕ
singles [] = 0
singles (c ∷ cs) = single c + singles cs

one_index-length : (cs : Chunks) (i : ℕ) → one_index cs ≡ some i → length (get_or cs i []) ≡ 1
unfolding one_index
one_index-length [] i h = absurd (ground arith)
one_index-length (c ∷ cs) i h = elim (Bool-cases (length c == 1)) [
  | inl e ↦
      let first : 0 ≡ i = ground arith in
      subst (λ j. length (get_or (c ∷ cs) j []) ≡ 1) first (ground arith)
  | inr e ↦ elim (Option-cases (one_index cs)) [
    | inl f ↦ absurd (ground arith)
    | inr (j, f) ↦
        let next : suc j ≡ i = ground arith in
        subst (λ k. length (get_or (c ∷ cs) k []) ≡ 1) next (one_index-length cs j f)
  ]
]

-- The search for the longest chunk returns what it began with, or a chunk and its length.
longest-length :
    (i : ℕ) (donor : Option ℕ) (m : ℕ) (cs : Chunks)
    → (longest i donor m cs ≡ (donor, m))
      ⊎ ((j : ℕ) × (longest i donor m cs ≡ (some (i + j), length (get_or cs j []))))
unfolding longest
longest-length i donor m [] = inl refl
longest-length i donor m (c ∷ cs) = elim (Bool-cases (ltb m (length c))) [
  | inl e ↦ elim (longest-length (suc i) (some i) (length c) cs) [
    | inl f ↦
        let here : i ≡ i + 0 = omega arith in
        inr (0, rw (longest, e) (f ∙ ap (λ k. (some k, length c)) here))
    | inr (j, f) ↦
        let there : suc i + j ≡ i + suc j = omega arith in
        inr (suc j, rw (longest, e) (f ∙ ap (λ k. (some k, length (get_or cs j []))) there))
  ]
  | inr e ↦ elim (longest-length (suc i) donor m cs) [
    | inl f ↦ inl (rw (longest, e) f)
    | inr (j, f) ↦
        let there : suc i + j ≡ i + suc j = omega arith in
        inr (suc j, rw (longest, e) (f ∙ ap (λ k. (some k, length (get_or cs j []))) there))
  ]
]

longest-donor :
    (cs : Chunks) (d : ℕ)
    → (longest 0 none 0 cs).0 ≡ some d
    → (longest 0 none 0 cs).1 ≡ length (get_or cs d [])
longest-donor cs d h = elim (longest-length 0 none 0 cs) [
  | inl f ↦ absurd (ground arith)
  | inr (j, f) ↦
      let at : 0 + j ≡ d = ground arith in
      let same : j ≡ d = omega (arith, at) in
      ap (λ (r : Option ℕ × ℕ). r.1) f ∙ ap (λ k. length (get_or cs k [])) same
]

last_note-length :
    (c : List SpendableNote)
    → 0 < length c
    → (n : SpendableNote) × (last_note c ≡ some n) × (suc (length (but_last c)) ≡ length c)
unfolding last_note but_last
last_note-length [] h = absurd (omega arith)
last_note-length (n ∷ []) h = (n, refl, refl)
last_note-length (n ∷ m ∷ ns) h =
    let (l, e, f) = last_note-length (m ∷ ns) (omega arith) in (l, e, ap suc f)

singles-set :
    (i : ℕ) (c : List SpendableNote) (cs : Chunks)
    → i < length cs
    → singles (set cs i c) + single (get_or cs i []) ≡ singles cs + single c
unfolding singles
singles-set i c [] h = absurd (omega arith)
singles-set zero c (d ∷ cs) h = omega arith
singles-set (suc i) c (d ∷ cs) h = omega (arith, singles-set i c cs (omega arith))

singles-append_at :
    (i : ℕ) (n : SpendableNote) (cs : Chunks)
    → i < length cs
    → singles (append_at i n cs) + single (get_or cs i [])
      ≡ singles cs + single (get_or cs i [] ++ n ∷ [])
unfolding singles append_at
singles-append_at i n [] h = absurd (omega arith)
singles-append_at zero n (c ∷ cs) h = omega arith
singles-append_at (suc i) n (c ∷ cs) h = omega (arith, singles-append_at i n cs (omega arith))

get_or-set :
    (cs : Chunks) (i j : ℕ) (c : List SpendableNote)
    → (i == j) ≡ false
    → get_or (set cs i c) j [] ≡ get_or cs j []
get_or-set [] i j c h = refl
get_or-set (d ∷ cs) zero zero c h = absurd (ground arith)
get_or-set (d ∷ cs) zero (suc j) c h = refl
get_or-set (d ∷ cs) (suc i) zero c h = refl
get_or-set (d ∷ cs) (suc i) (suc j) c h = get_or-set cs i j c (ground arith)

-- A turn leaves one chunk of one note less.
borrow_step-singles :
    (cs next : Chunks) → borrow_step cs ≡ some next → singles next + 1 ≡ singles cs
borrow_step-singles cs next h =
    let t = borrow_step-some cs next h in
    let d = t.donor in
    let one = t.one in
    let below : d < length cs =
      omega (arith, longest-below 0 none 0 cs d (λ b x. absurd (ground arith)) t.longest_one) in
    let c = get_or cs d [] in
    let three : 2 < length c = ground (arith, longest-donor cs d t.longest_one, t.long) in
    let (n, last, count) = last_note-length c (omega arith) in
    let rest = but_last c in
    let there = get_or-set cs d one rest t.apart in
    let one_long = one_index-length cs one t.found in
    let left = singles-set d rest cs below in
    let right =
      singles-append_at one n (set cs d rest)
        (omega (arith, one_index-below cs one t.found, length-set cs d rest)) in
    let was : single (get_or (set cs d rest) one []) ≡ 1 =
      rw there (unfold single in rw one_long refl) in
    let now : single (get_or (set cs d rest) one [] ++ n ∷ []) ≡ 0 =
      rw there
        (unfold single in rw (length-append (get_or cs one []) (n ∷ [])) (rw one_long refl)) in
    let donor_was : single c ≡ 0 = unfold single in ground arith in
    let donor_now : single rest ≡ 0 = unfold single in ground arith in
    rw (← t.moved) (
      unfold move_note in
      rw (move_note, last) (omega (arith, left, right, was, now, donor_was, donor_now)))

borrow_ends_for : (fuel : ℕ) (cs : Chunks) → singles cs ≤ fuel → borrow_step (borrow fuel cs) ≡ none
unfolding borrow
borrow_ends_for zero cs h = elim (Option-cases (borrow_step cs)) [
  | inl e ↦ e
  | inr (next, e) ↦ absurd (omega (arith, borrow_step-singles cs next e))
]
borrow_ends_for (suc fuel) cs h = elim (Option-cases (borrow_step cs)) [
  | inl e ↦ rw (borrow, e) e
  | inr (next, e) ↦
      rw (borrow, e) (borrow_ends_for fuel next (omega (arith, borrow_step-singles cs next e)))
]

singles-length : (cs : Chunks) → singles cs ≤ length cs
unfolding singles single
singles-length [] = omega arith
singles-length (c ∷ cs) = ground (arith, singles-length cs)

borrow_ends : (cs : Chunks) → borrow_step (borrow (length cs) cs) ≡ none
borrow_ends cs = borrow_ends_for (length cs) cs (singles-length cs)

length-deal :
    (k i : ℕ) (ns : List SpendableNote) (cs : Chunks) → length (deal k i ns cs) ≡ length cs
unfolding deal
length-deal k i [] cs = refl
length-deal k i (n ∷ ns) cs =
    length-deal k (suc i) ns (append_at (i % k) n cs) ∙ length-append_at (i % k) n cs

longest-one :
    (c : List SpendableNote) → length c ≡ 1 → longest 0 none 0 (c ∷ []) ≡ (some 0, length c)
unfolding longest
longest-one c e = ground arith

borrow_step-one : (c : List SpendableNote) → borrow_step (c ∷ []) ≡ none
unfolding borrow_step one_index
borrow_step-one c = elim (Bool-cases (length c == 1)) [
  | inl e ↦
      let e' : length c ≡ 1 = ground arith in rw (borrow_step, e') (rw (longest-one c e') refl)
  | inr e ↦ rw (borrow_step, e) refl
]

-- The chunks of `splitNotesBalanced` are settled: the turns that its loop is given, one for each chunk,
-- are enough for it to break off, and a further turn would do nothing.
pub split_notes_balanced_ends :
    (notes : List SpendableNote) (max_spends : ℤ)
    → borrow_step (split_notes_balanced notes max_spends) ≡ none
unfolding split_notes_balanced
split_notes_balanced_ends notes max_spends =
    let most = if ltb_ℤ (pos 0) max_spends then pos_part max_spends else length notes in
    let k = chunk_count (length notes) most in
    elim (Bool-cases (leb (length notes) most || leb k 1)) [
      | inl e ↦ rw (split_notes_balanced, e) (borrow_step-one notes)
      | inr e ↦
          let dealt = deal k 0 (sort_by spendable_before notes) (replicate k []) in
          let count : length dealt ≡ k =
            length-deal k 0 (sort_by spendable_before notes) (replicate k [])
            ∙ length-replicate k [] in
          rw (split_notes_balanced, e)
            (subst (λ f. borrow_step (borrow f dealt) ≡ none) count (borrow_ends dealt))
    ]
