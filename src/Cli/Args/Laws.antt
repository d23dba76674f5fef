-- ===== src/Cli/Args/Laws.antt =====
-- `reorderFlagArgs` loses and adds no argument, and leaves what it has put in order.
use mathlib.Core.List.Perm
use mathlib.Core.List.{Perm, perm_middle, append_assoc}
use juno_exchange_kit.Base.{
  ◌≡◌, ◌⊎◌, refl, ap, subst, inl, inr, ◌∙◌, ◌||◌, ◌&&◌, Bool, true, false, List, [], ◌∷◌, ◌++◌,
  Bool-cases, arith,
}
use juno_exchange_kit.Base.Text.{Text}
use juno_exchange_kit.Cli.Args.{
  is_end_mark, is_flag, FlagSet, wants_value, cons_flag, cons_positional, split_args,
  reorder_flag_args,
}

abbrev joined : List Text × List Text → List Text
joined (flags, positional) = flags ++ positional

waits_alike : (flag waits wants : Bool) → (flag || waits) ≡ false → (flag && wants) ≡ waits
waits_alike flag waits wants h = ground arith

module _ (fs : FlagSet) where
  cons_positional-perm :
      (a : Text) (r : List Text × List Text) (args : List Text)
      → Perm (joined r) args
      → Perm (joined (cons_positional a r)) (a ∷ args)
  cons_positional-perm a (flags, positional) args p =
      Perm.trans (perm_middle flags positional) (Perm.cons a p)

  cons_flag-perm :
      (a : Text) (r : List Text × List Text) (args : List Text)
      → Perm (joined r) args
      → Perm (joined (cons_flag a r)) (a ∷ args)
  cons_flag-perm a (flags, positional) args p = Perm.cons a p

  split_args-perm :
      (waits : Bool) (args : List Text) → Perm (joined (split_args fs waits args)) args
  unfolding split_args
  split_args-perm waits [] = Perm.refl []
  split_args-perm waits (a ∷ args) =
      let next = split_args-perm (is_flag a && wants_value fs a) args in
      elim (Bool-cases (is_end_mark a)) [
        | inl e ↦ rw e (Perm.refl (a ∷ args))
        | inr e ↦ elim (Bool-cases (is_flag a || waits)) [
          | inl f ↦
              rw (e, f)
                (cons_flag-perm a (split_args fs (is_flag a && wants_value fs a) args) args next)
          | inr f ↦
              rw (e, f)
                (cons_positional-perm a (split_args fs (is_flag a && wants_value fs a) args) args
                  next)
        ]
      ]

  -- An end mark with what follows it, or positional arguments in front of such.
  abbrev IsPositional : List Text → Type 0
  IsPositional [] = Unit
  IsPositional (a ∷ args) =
      (is_end_mark a ≡ true) ⊎ ((is_end_mark a ≡ false) × (is_flag a ≡ false) × IsPositional args)

  split_args-positional :
      (args : List Text) → IsPositional args → split_args fs false args ≡ ([], args)
  unfolding split_args
  split_args-positional [] p = refl
  split_args-positional (a ∷ args) (inl e) = rw e refl
  split_args-positional (a ∷ args) (inr (e, f, p)) =
      rw (e, f) (ap (cons_positional a) (split_args-positional args p))

  -- How a list splits whose flags are `flags`, when positional arguments follow.
  abbrev SplitsAfter : List Text → Bool → List Text → Type 0
  SplitsAfter flags waits rest =
      (taken : List Text) × (left : List Text) × (split_args fs waits (flags ++ rest)
        ≡ (flags ++ taken, left))
      × (taken ++ left ≡ rest)

  SplitsAfter-none :
      (waits : Bool) (rest : List Text) → IsPositional rest → SplitsAfter [] waits rest
  unfolding split_args
  SplitsAfter-none waits [] p = ([], [], refl, refl)
  SplitsAfter-none waits (a ∷ rest) (inl e) = ([], a ∷ rest, rw e refl, refl)
  SplitsAfter-none true (a ∷ rest) (inr (e, f, p)) =
      (a ∷ [], rest, rw (e, f) (ap (cons_flag a) (split_args-positional rest p)), refl)
  SplitsAfter-none false (a ∷ rest) (inr (e, f, p)) =
      ([], a ∷ rest, rw (e, f) (ap (cons_positional a) (split_args-positional rest p)), refl)

  SplitsAfter-flag :
      (a : Text) (flags : List Text) (waits : Bool) (rest : List Text)
      → is_end_mark a ≡ false
      → (is_flag a || waits) ≡ true
      → SplitsAfter flags (is_flag a && wants_value fs a) rest
      → SplitsAfter (a ∷ flags) waits rest
  unfolding split_args
  SplitsAfter-flag a flags waits rest e f (taken, left, s, j) =
      (taken, left, rw (e, f) (ap (cons_flag a) s), j)

  split_args-SplitsAfter :
      (args : List Text) (waits : Bool) (rest : List Text)
      → IsPositional rest
      → SplitsAfter (split_args fs waits args).0 waits rest
  unfolding split_args
  split_args-SplitsAfter [] waits rest p = SplitsAfter-none waits rest p
  split_args-SplitsAfter (a ∷ args) waits rest p =
      let wants = is_flag a && wants_value fs a in
      let next = split_args-SplitsAfter args wants rest p in
      elim (Bool-cases (is_end_mark a)) [
        | inl e ↦ rw e (SplitsAfter-none waits rest p)
        | inr e ↦ elim (Bool-cases (is_flag a || waits)) [
          | inl f ↦ rw (e, f) (SplitsAfter-flag a (split_args fs wants args).0 waits rest e f next)
          | inr f ↦
              let waiting : wants ≡ waits = waits_alike (is_flag a) waits (wants_value fs a) f in
              rw (e, f) (subst (λ b. SplitsAfter (split_args fs wants args).0 b rest) waiting next)
        ]
      ]

  cons_flag-IsPositional :
      (a : Text) (r : List Text × List Text) → IsPositional r.1 → IsPositional (cons_flag a r).1
  cons_flag-IsPositional a (flags, positional) p = p

  cons_positional-IsPositional :
      (a : Text) (r : List Text × List Text)
      → is_end_mark a ≡ false
      → is_flag a ≡ false
      → IsPositional r.1
      → IsPositional (cons_positional a r).1
  cons_positional-IsPositional a (flags, positional) e f p = inr (e, f, p)

  split_args-IsPositional :
      (args : List Text) (waits : Bool) → IsPositional (split_args fs waits args).1
  unfolding split_args
  split_args-IsPositional [] waits = tt
  split_args-IsPositional (a ∷ args) waits =
      let r = split_args fs (is_flag a && wants_value fs a) args in
      let next = split_args-IsPositional args (is_flag a && wants_value fs a) in
      elim (Bool-cases (is_end_mark a)) [
        | inl e ↦ rw e (inl e)
        | inr e ↦ elim (Bool-cases (is_flag a || waits)) [
          | inl f ↦ rw (e, f) (cons_flag-IsPositional a r next)
          | inr f ↦ rw (e, f) (cons_positional-IsPositional a r e (ground arith) next)
        ]
      ]

  -- The arguments are those that were given, each as often.
  pub reorder_flag_args-perm : (args : List Text) → Perm (reorder_flag_args fs args) args
  unfolding reorder_flag_args
  reorder_flag_args-perm args = split_args-perm false args

  -- Reordering twice is reordering once.
  pub reorder_flag_args_idem :
      (args : List Text)
      → reorder_flag_args fs (reorder_flag_args fs args) ≡ reorder_flag_args fs args
  unfolding reorder_flag_args
  reorder_flag_args_idem args =
      let flags = (split_args fs false args).0 in
      let positional = (split_args fs false args).1 in
      let (taken, left, s, j) =
        split_args-SplitsAfter args false positional (split_args-IsPositional args false) in
      ap joined s ∙ append_assoc flags taken left ∙ ap (λ xs. flags ++ xs) j
