-- ===== src/Adapter.antt =====
-- oracle_bridge/adapters: the feed adapter (base.py) with its metrics (oracle_bridge/metrics.py), and
-- the two providers (toucan.py and xpansiv.py).
pub mod Metrics
pub mod Fetch
pub mod Provider
pub mod FetchPrice
pub mod Priced
pub mod Outcome
pub mod Calls
pub mod Replay
