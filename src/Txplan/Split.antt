-- ===== src/Txplan/Split.antt =====
-- `splitNotesBalanced` puts every note into one chunk, and its loop ends.
use juno_exchange_kit.Base.{
  ℕ, ◌+◌, ◌%◌, ◌<◌, ◌≡◌, refl, ap, ◌∙◌, inl, inr, Bool, false, ◌||◌, Option, none, some, List, [],
  ◌∷◌, ◌++◌, ltb, leb, length, replicate, set, get_or, ◌==◌, if◌then◌else◌, zero, suc, arith,
  Bool-cases, Option-cases, length-set, length-replicate,
}
use native.Mathlib.Nat.{mod-lt}
use juno_exchange_kit.Base.Int.{ℤ, pos, pos_part, ltb_ℤ}
use juno_exchange_kit.Base.Table.{sort_by, insert_by}
use juno_exchange_kit.Txplan.Chunks.{
  SpendableNote, Chunks, spendable_before, append_at, deal, one_index, longest, last_note, but_last,
  move_note, borrow_step, borrow, chunk_count, split_notes_balanced,
}

-- The sum of a measure over notes, and over the notes of all chunks. With the measure that is 1 on
-- some notes and 0 on the others it counts them.
module _ (f : SpendableNote → ℕ) where
  unfoldable pub weight : List SpendableNote → ℕ
  weight [] = 0
  weight (n ∷ ns) = f n + weight ns

  unfoldable pub weights : Chunks → ℕ
  weights [] = 0
  weights (c ∷ cs) = weight c + weights cs

  pub weight-append : (ms ns : List SpendableNote) → weight (ms ++ ns) ≡ weight ms + weight ns
  unfolding weight
  weight-append [] ns = omega arith
  weight-append (m ∷ ms) ns = omega (arith, weight-append ms ns)

  weight-insert_by :
      (before : SpendableNote → SpendableNote → Bool) (n : SpendableNote) (ns : List SpendableNote)
      → weight (insert_by before n ns) ≡ f n + weight ns
  unfolding weight insert_by
  weight-insert_by before n [] = refl
  weight-insert_by before n (m ∷ ns) = ground (arith, weight-insert_by before n ns)

  weight-sort_by :
      (before : SpendableNote → SpendableNote → Bool) (ns : List SpendableNote)
      → weight (sort_by before ns) ≡ weight ns
  unfolding weight sort_by
  weight-sort_by before [] = refl
  weight-sort_by before (n ∷ ns) =
      weight-insert_by before n (sort_by before ns) ∙ ap (λ v. f n + v) (weight-sort_by before ns)

  weights-append_at :
      (i : ℕ) (n : SpendableNote) (cs : Chunks)
      → i < length cs
      → weights (append_at i n cs) ≡ weights cs + f n
  unfolding weights append_at weight
  weights-append_at i n [] h = absurd (omega arith)
  weights-append_at zero n (c ∷ cs) h = omega (arith, weight-append c (n ∷ []))
  weights-append_at (suc i) n (c ∷ cs) h = omega (arith, weights-append_at i n cs (omega arith))

  weights-set :
      (i : ℕ) (c : List SpendableNote) (cs : Chunks)
      → i < length cs
      → weights (set cs i c) + weight (get_or cs i []) ≡ weights cs + weight c
  unfolding weights weight
  weights-set i c [] h = absurd (omega arith)
  weights-set zero c (d ∷ cs) h = omega arith
  weights-set (suc i) c (d ∷ cs) h = omega (arith, weights-set i c cs (omega arith))

  weight-but_last :
      (c : List SpendableNote) (n : SpendableNote)
      → last_note c ≡ some n
      → weight (but_last c) + f n ≡ weight c
  unfolding weight last_note but_last
  weight-but_last [] n h = absurd (ground arith)
  weight-but_last (m ∷ []) n h = ground arith
  weight-but_last (m ∷ l ∷ ns) n h = omega (arith, weight-but_last (l ∷ ns) n h)

pub length-append_at :
    (i : ℕ) (n : SpendableNote) (cs : Chunks) → length (append_at i n cs) ≡ length cs
unfolding append_at
length-append_at i n [] = refl
length-append_at zero n (c ∷ cs) = refl
length-append_at (suc i) n (c ∷ cs) = ap suc (length-append_at i n cs)

length-move_note : (d one : ℕ) (cs : Chunks) → length (move_note d one cs) ≡ length cs
unfolding move_note
length-move_note d one cs = elim (Option-cases (last_note (get_or cs d []))) [
  | inl e ↦ rw (move_note, e)
  | inr (n, e) ↦
      rw (move_note, e)
        (length-append_at one n (set cs d (but_last (get_or cs d []))) ∙ length-set cs d _)
]

weights-move_note :
    (f : SpendableNote → ℕ) (d one : ℕ) (cs : Chunks)
    → d < length cs
    → one < length cs
    → weights f (move_note d one cs) ≡ weights f cs
unfolding move_note
weights-move_note f d one cs h k = elim (Option-cases (last_note (get_or cs d []))) [
  | inl e ↦ rw (move_note, e)
  | inr (n, e) ↦
      let rest = but_last (get_or cs d []) in
      rw (move_note, e)
        (omega (
          arith,
          weights-append_at f one n (set cs d rest) (omega (arith, length-set cs d rest)),
          weights-set f d rest cs h,
          weight-but_last f (get_or cs d []) n e,
        ))
]

pub one_index-below : (cs : Chunks) (i : ℕ) → one_index cs ≡ some i → i < length cs
unfolding one_index
one_index-below [] i h = absurd (ground arith)
one_index-below (c ∷ cs) i h = elim (Option-cases (one_index cs)) [
  | inl e ↦ ground arith
  | inr (j, e) ↦ let below = one_index-below cs j e in ground arith
]

pub longest-below :
    (i : ℕ) (donor : Option ℕ) (max_len : ℕ) (cs : Chunks) (d : ℕ)
    → ((b : ℕ) → donor ≡ some b → b < i)
    → (longest i donor max_len cs).0 ≡ some d
    → d < i + length cs
unfolding longest
longest-below i donor m [] d h k = omega (arith, h d k)
longest-below i donor m (c ∷ cs) d h k = elim (Bool-cases (ltb m (length c))) [
  | inl e ↦
      omega
        (arith, longest-below (suc i) (some i) (length c) cs d (λ b x. ground arith) (ground arith))
  | inr e ↦
      omega (arith, longest-below (suc i) donor m cs d (λ b x. omega (arith, h b x)) (ground arith))
]

-- What a turn of the loop does, if it does not break off.
pub record IsTurn (cs next : Chunks) : Type 0 where
  pub one : ℕ
  pub donor : ℕ
  pub found : one_index cs ≡ some one
  pub longest_one : (longest 0 none 0 cs).0 ≡ some donor
  pub apart : (donor == one) ≡ false
  pub long : leb (longest 0 none 0 cs).1 2 ≡ false
  pub moved : move_note donor one cs ≡ next

pub borrow_step-some : (cs next : Chunks) → borrow_step cs ≡ some next → IsTurn cs next
unfolding borrow_step
borrow_step-some cs next h = elim (Option-cases (one_index cs)) [
  | inl e ↦ absurd (ground arith)
  | inr (one, e) ↦ elim (Option-cases (longest 0 none 0 cs).0) [
    | inl e' ↦ absurd (ground arith)
    | inr (d, e') ↦ record {
      one = one;
      donor = d;
      found = e;
      longest_one = e';
      apart = ground arith;
      long = ground arith;
      moved = ground arith;
    }
  ]
]

weights-borrow_step :
    (f : SpendableNote → ℕ) (cs next : Chunks)
    → borrow_step cs ≡ some next
    → (weights f next ≡ weights f cs) × (length next ≡ length cs)
weights-borrow_step f cs next h =
    let t = borrow_step-some cs next h in
    let below = longest-below 0 none 0 cs t.donor (λ b x. absurd (ground arith)) t.longest_one in
    (
      rw (← t.moved)
          (weights-move_note f t.donor t.one cs (omega arith) (one_index-below cs t.one t.found)),
      rw (← t.moved) (length-move_note t.donor t.one cs),
    )

weights-borrow :
    (f : SpendableNote → ℕ) (fuel : ℕ) (cs : Chunks) → weights f (borrow fuel cs) ≡ weights f cs
unfolding borrow
weights-borrow f zero cs = refl
weights-borrow f (suc fuel) cs = elim (Option-cases (borrow_step cs)) [
  | inl e ↦ rw (borrow, e)
  | inr (next, e) ↦
      rw (borrow, e) (weights-borrow f fuel next ∙ (weights-borrow_step f cs next e).0)
]

module _ (f : SpendableNote → ℕ) where
  weights-deal :
      (k i : ℕ) (ns : List SpendableNote) (cs : Chunks)
      → 0 < k
      → length cs ≡ k
      → weights f (deal k i ns cs) ≡ weights f cs + weight f ns
  unfolding deal weight
  weights-deal k i [] cs h e = omega arith
  weights-deal k i (n ∷ ns) cs h e = omega (
    arith,
    weights-deal k (suc i) ns (append_at (i % k) n cs) h (length-append_at (i % k) n cs ∙ e),
    weights-append_at f (i % k) n cs (rw e (mod-lt i h)),
  )

  weights-replicate : (k : ℕ) → weights f (replicate k []) ≡ 0
  unfolding weights weight
  weights-replicate zero = refl
  weights-replicate (suc k) = omega (arith, weights-replicate k)

  weights-one : (ns : List SpendableNote) → weights f (ns ∷ []) ≡ weight f ns
  unfolding weights
  weights-one ns = omega arith

  -- Every note is in one chunk, as often as it is in the list: any measure of the notes adds up to
  -- the same over the chunks.
  pub split_notes_balanced-weights :
      (notes : List SpendableNote) (max_spends : ℤ)
      → weights f (split_notes_balanced notes max_spends) ≡ weight f notes
  unfolding split_notes_balanced
  split_notes_balanced-weights notes max_spends =
      let most = if ltb_ℤ (pos 0) max_spends then pos_part max_spends else length notes in
      let k = chunk_count (length notes) most in
      elim (Bool-cases (leb (length notes) most || leb k 1)) [
        | inl e ↦ rw (split_notes_balanced, e) (weights-one notes)
        | inr e ↦
            rw (split_notes_balanced, e)
              (weights-borrow f k _
                ∙ (weights-deal k 0 (sort_by spendable_before notes) (replicate k []) (ground arith)
                      (length-replicate k [])
                    ∙ omega (arith, weights-replicate k, weight-sort_by f spendable_before notes)))
      ]
