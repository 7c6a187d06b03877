-- ===== src/Cli.antt =====
-- oracle_bridge/cli.py: the commands.
pub mod ReplayDlq
pub mod Stats
pub mod ExitCode
pub mod Submit
pub mod DryRun
pub mod SubmitExit
