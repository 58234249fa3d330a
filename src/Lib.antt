-- ===== src/Lib.antt =====
-- A model of anomalyd, the self-hosted anomaly detector of this repository, and what is proved of it.
--
-- The program. anomalyd receives Prometheus remote-write requests and log lines, keeps a ring of
-- buckets for each series, scores every closed bucket against a seasonal median, and turns runs of
-- anomalous buckets into findings. Log lines are first reduced to templates by a Drain miner, and
-- counted by template. Agents push such counts; a registry follows who pushed.
--
-- The files, and what they are about:
--   Promrw    anomalyd/internal/promrw/promrw.go: `decode` and `Encode.encode` of a request, field by
--             field; `walk` is the loop over fields that three of the readers share.
--   Series    anomalyd/internal/series/store.go, `Series`: `at`, `add`, `advance` on a ring;
--             `Labels.key_of`, the key of a series.
--   Store     the same file, `Store`: `update`, `lookup_with`, `delete`, `snapshot`, `restore` on 64
--             shards.
--   Drain     anomalyd/internal/drain/drain.go, `Miner`: `Mining.add`, `Mining.hit`, `Mining.restore`.
--             `Mask.tokenize` is mask.go beside it, and `Pool.get` the pool of miners.
--   Detect    anomalyd/internal/detect/seasonal.go: `score` and its parts.
--   Eval      anomalyd/internal/server/eval.go, `evalSeries` and `trackAbsent`, on the state `Info` of
--             one series: the new state and the events.
--   Findings  the same file, `apply` and `resolveLocked`: the events, on the map of findings.
--   Novelty   the same file, `evalNovelty` and `evalSignaturesLocked`: new templates and signatures.
--   Severity  the same file, the labels that `newFinding` makes, with their severity, and the level of a
--             template, which server.go has.
--   Gc        the same file, `gc`: what is removed of both stores and of the templates' metadata.
--   Alerts    the same file, `sendAlerts`: what is posted to the Alertmanagers, and what is marked.
--   Rounds    the same file, `Evaluate`: both stores, then the findings; `Whole.evaluate_whole` with
--             Novelty, Gc and Alerts, in the order of the source.
--   Setup     anomalyd/internal/server/server.go, `New`: the parameters of the scores and the sizes of the
--             rings from the configuration.
--   State     anomalyd/internal/server/state.go: `copy_state`, what is saved; `Load` and `Restart`, what
--             `load` and `restoreFindings` make of it. It uses Store, Drain, Ingest.Logs and Findings.
--   Signatures  anomalyd/internal/server/signature.go: `parse_signatures`.
--   Gen       anomalyd/internal/gen/gen.go: the labels and the batches of `RemoteWrite`.
--   Agents    anomalyd/internal/server/agents.go, `agentRegistry`: `record_push`, `reject`
--             and `rows`.
--   Ingest    anomalyd/internal/server/ingest.go: the samples of a remote-write request, `mark_seen` and
--             `seen`, the clock of the metrics; `Logs` and `Logs.Counts` for `handle_push` and
--             `Logs.Posted` for `handle_logs`, which use Drain, Store, Logparse and Agents as the source
--             does.
--   Wire      anomalyd/internal/wire/wire.go: the push of an agent, and `Sample` as text.
--   Logparse  anomalyd/internal/logparse: `extract` of logparse.go over the text that is left of a line;
--             `Levels` beside it, `Infer` of severity.go, `Container` of container.go.
--   Agent     anomalyd/internal/agent/agent.go: `merge`, `push` and what it puts back; `Tail.read` over the
--             chunks of a file, `Lines` for one line, `Items` for the request. It uses Logparse, Drain
--             and Wire as the source does.
--   Floats    the machine's floats, as an interface. Common holds tests, lists, maps and integers.
--   Tests     runs at concrete inputs, over the small arithmetic of Tests.Toy.
--
-- How the state corresponds. A struct is a record with the same fields; a method takes the record and
-- returns it changed. A map is an association list, whose order stands for Go's unspecified one. A
-- pointer is an id or a place in a list. Errors are values of `Promrw.Result`. Locks order the calls on
-- what they guard, and the model makes the calls one after the other.
--
-- Bounds and fuel. Varints, lengths and timestamps are numbers below 2^64, sample counts wrap at 2^32.
-- A sum of log lines is an `int64`, as the number below 2^64 of its bits, and wraps in Ingest.Logs,
-- State.Load and Agents; Novelty and Severity compare such numbers below 2^63.
-- Bucket numbers and times do not wrap: they are seconds, or seconds over a step. The loops over bytes
-- run on the length of the input, since each field takes a byte at least; `evict` runs on the number
-- of clusters, since each round removes one. `extract` runs on the length of the line, as each round
-- of its loops takes a byte; so do `read_chunk` on the length of the chunk and one more, and the loop of
-- `infer_level` on the length of a token. `detect_level` has the six rounds of the source. The loops
-- of `remote_write` over times and chunks run on the seconds that are left, as each round takes one at
-- least. All other loops are structural. `buckets` divides natural numbers, as which the floats of the
-- source are exact below 2^53.
--
-- Parameters. What the Alertmanagers answer, floating-point arithmetic, the sort of a slice of floats, the hash of a key, snappy,
-- encoding/json's decoding of a string with escapes (`unquote`), the text of a float or a number, the
-- signatures' regular expressions, and Go's functions on UTF-8 text. `ToLower` and `Fields` are those of ASCII text.
--
-- Not modelled: HTTP and JSON around the handlers, backfill, the encoding of the state and its file,
-- /metrics, the command line, the agent's files and timers, which are mostly input and output; the IDs
-- and annotations of a finding, whose labels stand beside it in Severity, with `About` for those that a
-- restart reads back; the values and the log lines of the generator of test load.
pub mod Common
pub mod Floats
pub mod Series
pub mod Store
pub mod Drain
pub mod Detect
pub mod Eval
pub mod Promrw
pub mod Agents
pub mod Findings
pub mod Tests
pub mod Rounds
pub mod Wire
pub mod Logparse
pub mod Agent
pub mod Ingest
pub mod Novelty
pub mod Alerts
pub mod Gc
pub mod Setup
pub mod State
pub mod Signatures
pub mod Gen
pub mod Severity
