-- ===== src/Tests/Cli.antt =====
-- The commands on a queue with one entry, all feeds down.
use stellar_kraal_contract.Common.{◌≡◌, ◌≢◌, ◌↔◌, refl, true, false, [], none, some, all, ◌∷◌}
use stellar_kraal_contract.Common.Sort.{sorted}
use stellar_kraal_contract.Common.Text.{occurs_in, codes, str_eq}
use stellar_kraal_contract.Resilience.Queue.{list_unreplayed}
use stellar_kraal_contract.Cli.ExitCode.{cmd_replay_dlq-exit_code}
use stellar_kraal_contract.Cli.ReplayDlq.{
  chosen, has_adapter, cmd_replay_dlq, choose_adapter, toucan_protocol, lower,
}
use stellar_kraal_contract.Tests.Adapter.{waiting, env, down, world}
use stellar_kraal_contract.Tests.Fixed.{fixed_float}

-- A replay that fails is counted as a success.
failed_but_counted : (cmd_replay_dlq env (λ k. down) (codes "dlq.db") true none false world).0 ≡ 0
unfolding cmd_replay_dlq list_unreplayed sorted choose_adapter occurs_in lower str_eq
failed_but_counted = refl

by_lower_case : choose_adapter (codes "TouCan-NCT") ≡ some toucan_protocol
unfolding choose_adapter occurs_in lower
by_lower_case = refl

listed : chosen none (list_unreplayed (world.tables (codes "dlq.db"))) ≡ waiting ∷ []
unfolding chosen list_unreplayed sorted
listed = refl

one_waiting : chosen none (list_unreplayed (world.tables (codes "dlq.db"))) ≢ []
one_waiting e = absurd (cc (listed, e))

cmd_replay_dlq-exit_code_example :
    ((cmd_replay_dlq env (λ k. down) (codes "dlq.db") true none false world).0 ≡ 0)
    ↔ (all has_adapter (chosen none (list_unreplayed (world.tables (codes "dlq.db")))) ≡ true)
cmd_replay_dlq-exit_code_example =
    cmd_replay_dlq-exit_code env (λ k. down) (codes "dlq.db") none world one_waiting
