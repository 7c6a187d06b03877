-- ===== src/Lib.antt =====
-- The oracle bridge of StellarKraal (oracle-bridge/oracle_bridge, Python): prices are fetched from
-- market adapters with retries, a degraded mode and a dead-letter queue; several sources are
-- aggregated by a weighted median after outliers are rejected; and the value is packed in a payload
-- of 113 bytes that a key signs and a contract reads.
--
-- Common            numbers, text, UTF-8, dicts, sorting, `Json` (the values that `json` reads and
--                   writes), the order of their keys, words and decimal digits of a text, results
--                   that carry the exception raised, and `Float`: the operations and the laws of
--                   the floating-point numbers in use.
-- Aggregation       oracle_bridge/aggregation.py. Config: `PriceSource`, `AggregationConfig` and
--                   their checks. Number: `statistics.median` on ints and floats. Median:
--                   `_weighted_median`. Outliers: `_percentile` and the three rejection methods.
--                   Aggregate: `aggregate`. Crossing, Rejection, Order, Outcome and Failure: what
--                   holds of them.
-- Attestation       oracle_bridge/attestation.py. BigEndian: the parts of `struct` that are used.
--                   Payload: `AttestationPayload`, `to_bytes`, `from_bytes`, `pad_feed_id`.
--                   Hex and Signer: `OracleSigner.attest`, `OracleVerifier.verify` and the JSON
--                   envelope. Wire, Feed and Signing: what holds of them.
-- Resilience        oracle_bridge/resilience.py. Retry: `compute_backoff` and `retry`. Degraded:
--                   `DegradedModeState`. Queue: `DeadLetterQueue`. Backoff, Attempts, History and
--                   Queue/Laws: what holds of them.
-- Adapter           oracle_bridge/adapters/base.py with oracle_bridge/metrics.py. Fetch:
--                   `FeedAdapter.fetch` and `replay_dlq_entry`, which call `retry`, change the
--                   degraded state and write to the queue. Provider and FetchPrice:
--                   `_fetch_price` of adapters/toucan.py and adapters/xpansiv.py. Outcome, Calls,
--                   Replay and Priced: what holds.
-- Provenance        oracle_bridge/provenance.py. Record: `ProvenanceRecord`, `to_dict` and
--                   `from_dict`. Validate: `_lightweight_validate` and
--                   `validate_provenance_record`. Schema: `PROVENANCE_SCHEMA`. Canonical:
--                   `_build_canonical_payload`, `to_json`. Verify: `verify_hashes`. Shape, Loading,
--                   Acceptance, Consistency and Sorting: what holds of them.
-- Bridge            oracle_bridge/bridge.py and oracle_bridge/ipfs.py. Ipfs: both IPFS clients,
--                   pinning and fetching. Submit: the CID check and the submission. Commit:
--                   `commit` and `reveal`, which call `attest`. Process and Aggregated: `process`
--                   and `aggregate_and_submit`, which sign, build the provenance record, validate
--                   it, pin it and submit. Pinning, Submission, Opening, Processed,
--                   AggregateOutcome and Conforming: what holds of them.
-- VerifyTool        tools/verify_provenance.py. Checks: the checks of a record. Command: the
--                   loaders and `verify` with its exit code. Show: `show`, `dump` and `main`.
--                   Encoding, Steps, Facts, Verdict, Attested, Published, Sorting and
--                   SortedVerdict: what holds of them.
-- Demo              tools/demo_server.py over the bridge and the simulated IPFS client. World: the
--                   global state and `FakeClient`. Pages, Submit and Verify: the handlers. Server:
--                   the routes, `_seed` and the states that are reached. Honest, Effect, Processed,
--                   Kept, FormText, Checked, Sorting, SortedChecks and Invariant: what holds of them.
-- Cli               oracle_bridge/cli.py. ReplayDlq: `cmd_replay_dlq`, over the adapters. Stats:
--                   `cmd_dlq_stats`. Submit: `cmd_submit`, over `aggregate_and_submit`. ExitCode,
--                   DryRun and SubmitExit: what the exit codes tell.
-- Tests             `Fixed`, decimal numbers that meet the laws of `Float`, and concrete runs.
--
-- State is passed explicitly. An adapter is a record with its degraded state; the world has the
-- state of everything outside, the tables of the SQLite files by path, and the metrics. An exception
-- is a value of `Error`, one constructor for each place that raises. `int` is ℤ without bounds, as
-- in Python, and the bounds of 64 bits are those that the code tests. Text is its code points and
-- bytes are numbers below 256. All loops are structural: `retry` counts down the attempts left. Only
-- the decimal digits of a number take fuel, one more than the number, with which all are there.
--
-- Floating point is the interface `Float`. Definitions use its operations only; theorems that need
-- order take the laws as the argument `IsOrdered`, with the case of a value that is not a number
-- excluded where the law fails for it. An int that is too large for a float raises in
-- `compute_backoff` and in `_percentile`; for the MAD method, `statistics.median` and the prices of
-- the providers the ints are taken to be in range. Parameters are also the clock, the random
-- generator, `sleep`, which may raise, the texts of exceptions, and the abstract `_fetch_price`.
--
-- Ed25519, SHA-256 and `json.dumps` are the record `Crypto`, with the laws `IsSignatureScheme`. The
-- submission client and the IPFS client of the bridge are records of functions on a world, and so is
-- `urlopen`. `json.loads`, `jsonschema` (present or not), the text of a time in UTC and the files of
-- the verification tool are parameters, too.
--
-- Not modelled: logging, the parsers and the output of the command lines, the metrics server, the
-- HTML of the demo server, the Rust contracts and the TypeScript backend.
pub mod Common
pub mod Attestation
pub mod Aggregation
pub mod Resilience
pub mod Adapter
pub mod Bridge
pub mod Cli
pub mod Provenance
pub mod VerifyTool
pub mod Demo
mod Tests
