-- ===== src/Aggregation.antt =====
-- oracle_bridge/aggregation.py: weighted median of several price sources with outlier rejection.
pub mod Config
pub mod Number
pub mod Median
pub mod Outliers
pub mod Aggregate
pub mod Order
pub mod Outcome
pub mod Failure
pub mod Crossing
pub mod Rejection
