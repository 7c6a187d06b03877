-- ===== src/Cli/Stats.antt =====
-- `cmd_dlq_stats`.
use stellar_kraal_contract.Common.{
  ℕ, ◌+◌, ◌≡◌, refl, Bool, not, List, [], ◌∷◌, arith, length, select,
}
use stellar_kraal_contract.Common.Int.{ℤ, pos, ◌-ℤ◌}
use stellar_kraal_contract.Resilience.Queue.{DlqEntry, DeadLetterQueue, count, count_unreplayed}

pub record Stats : Type 0 where
  pub total_entries : ℕ
  pub replayed : ℤ
  pub unreplayed : ℕ

unfoldable pub dlq_stats : DeadLetterQueue → Stats
dlq_stats q =
    let total = count q in
    let unreplayed = count_unreplayed q in
    record {
      total_entries = total;
      replayed = pos total -ℤ pos unreplayed;
      unreplayed = unreplayed;
    }

select-partition :
    (p : DlqEntry → Bool) (es : List DlqEntry)
    → length es ≡ length (select p es) + length (select (λ e. not (p e)) es)
select-partition p [] = refl
select-partition p (e ∷ es) = ground (arith, select-partition p es)

-- The number that `dlq-stats` reports as replayed is the number of rows that are marked as replayed, and the three
-- numbers add up.
pub dlq_stats_lem :
    (q : DeadLetterQueue)
    → ((dlq_stats q).replayed ≡ pos (length (select (λ e. e.replayed) q.rows)))
      × ((dlq_stats q).total_entries
          ≡ length (select (λ e. e.replayed) q.rows) + (dlq_stats q).unreplayed)
unfolding dlq_stats count count_unreplayed ◌-ℤ◌
dlq_stats_lem q =
    let split = select-partition (λ e. e.replayed) q.rows in (ground (arith, split), split)
