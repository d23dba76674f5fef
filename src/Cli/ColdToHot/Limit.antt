-- ===== src/Cli/ColdToHot/Limit.antt =====
-- `coldMaxSendable` computes what it means to, in exact integers.
use juno_exchange_kit.Base.{
  ℕ, ◌+◌, ◌-◌, ◌*◌, ◌≡◌, ◌&&◌, not, Bool, true, List, [], ◌∷◌, length, ltb, leb, take,
  if◌then◌else◌,
}
use juno_exchange_kit.Base.Int.{ℤ, pos, pos_part, ltb_ℤ}
use juno_exchange_kit.Base.Word.{max_int64}
use juno_exchange_kit.Base.Table.{sort_by}
use juno_exchange_kit.Txplan.Services.{WalletNote}
use juno_exchange_kit.Txplan.Actions.{has_position}
use juno_exchange_kit.Cli.ColdToHot.{MaxSendable, nothing_sendable}

-- In exact integers: the note has a position, an action and a value above 0, and stands in a block up to the
-- tip; the blocks from its own to the tip are as many as wanted.
unfoldable pub counts_for : ℕ → ℤ → WalletNote → Bool
counts_for tip minconf n =
    has_position n
    && not (ltb_ℤ n.action_index (pos 0))
    && ltb_ℤ (pos 0) n.value_zat
    && not (ltb_ℤ n.height (pos 0))
    && leb (pos_part n.height) tip
    && not (ltb_ℤ (pos (tip - pos_part n.height + 1)) minconf)

unfoldable pub values_for : ℕ → ℤ → List WalletNote → List ℤ
values_for tip minconf [] = []
values_for tip minconf (n ∷ ns) =
    let rest = values_for tip minconf ns in
    if counts_for tip minconf n then n.value_zat ∷ rest else rest

unfoldable pub total_of : List ℤ → ℕ
total_of [] = 0
total_of (v ∷ vs) = pos_part v + total_of vs

-- 5,000 zatoshis for a note that is spent, and 10,000 at least.
abbrev exact_fee : ℕ → ℕ
exact_fee count = 5000 * (if ltb count 2 then 2 else count)

-- The exact sum of some values and what the fee of their transaction leaves of it, or nothing if the sum is
-- not an int64.
unfoldable pub max_from : List ℤ → MaxSendable
max_from vs =
    let total = total_of vs in
    let fee = exact_fee (length vs) in
    if ltb max_int64 total then nothing_sendable else record {
      max_amount_zat = if ltb fee total then pos (total - fee) else pos 0;
      spendable_zat = pos total;
      spendable_notes = length vs;
    }

-- The 200 largest values of the notes that count.
unfoldable pub exact_max : ℕ → ℤ → List WalletNote → MaxSendable
exact_max tip minconf ns =
    max_from (take 200 (sort_by (λ a b. ltb_ℤ b a) (values_for tip minconf ns)))

abbrev IsAbove : ℤ → Type 0
IsAbove v = ltb_ℤ (pos 0) v ≡ true
