-- ===== src/Lib.antt =====
-- spark-dashboard: a monitoring server for local inference engines.
--
-- The server finds the inference engines of a host, polls them once a second, and sends what it
-- collects to a browser; it also stores one document, the configuration of the dashboard. The
-- modelled parts, by file:
--
-- Engine (src/engines/mod.rs). `Types` and `Metrics` hold the data of the metrics contract and
-- `reported_only`. `State` is `EngineState`: the grace period of failed probes, the model cache
-- with its cooldowns, `poll` and `snapshot`. `Collector` is the engine map with the two branches of
-- `engine_collector_loop`, and `Collector/Reach` has the loop as a step relation: a timer fires, a
-- detection pass brings what the environment chooses, or all engines are polled. `ApiKeys` is
-- `ApiKeyResolver`. An engine's HTTP answers are behind the interface `EngineAdapter`, which stands
-- for the trait of that name; the state of an adapter holds the answers that it is going to give.
-- Adapters implements it with `create_adapter` and the four adapters of the program; what each call
-- of an adapter meets, the answers and the clock, is a parameter there, and an adapter that is
-- created again for a key meets the same answers again.
-- Theorems about one engine are in State/Phase, State/Models and State/Snapshots, those about the
-- map in Collector/Reach, Collector/Detection and Collector/Polling, and Adapters/Reach has the
-- reachable states of the loop with the program's adapters.
--
-- Detection (src/engines/detector.rs) is how the engines of a host are found. `Commands` says which
-- engine a command line runs, `Containers` which a container does. `Launch` reads a llama-server's
-- flags and environment and where it listens, `Arguments` the flags of the other engines and the
-- rows of `docker top`. `PidTree` is `expand_pid_tree`; the fuel of its loop is the number of roots
-- and processes, which theorem PidTree/Reach shows to be enough. `Processes` makes the candidates
-- of the host's process table, `Endpoints` and `Docker` those of the containers, `Candidates`
-- merges and verifies them, and `Probe` asks a server whether it is an engine of a type. Parameters
-- are the process table, the containers and what Docker answers of them, the environment of a
-- process, the parsing of IP addresses and of JSON, lower case, and the answers of the servers.
-- Ollama (src/engines/ollama.rs) reads OLLAMA_HOST, says which server is an Ollama, and in
-- `Adapter` keeps the list of the models that the server has loaded, sorted by Sorting. Text has
-- the methods of `str` that these use; the numbers that a text is parsed to have their bound
-- written out.
--
-- LlamaCpp (src/engines/llamacpp.rs) is the adapter of llama-server. `Answers` says what the
-- answers of /health, /metrics, /props, /models and /slots mean, with two helpers of
-- src/engines/model_info.rs, `Identified` which server is a llama-server; `Metrics` makes the
-- metrics of a scrape; `Adapter` is `LlamaCppAdapter` with its locks' contents as one state, which
-- `get_model_info` and, in `Polls`, `get_metrics` pass on. `Scrapes`, `Groups` and `Declared` are
-- about the scrapes. Http (src/engines/common.rs) has the answers of an engine: a function from
-- paths to replies, for one call of the adapter. Json is `serde_json::Value`; parsing is a
-- parameter.
--
-- Vllm (src/engines/vllm.rs) and Sglang (src/engines/sglang.rs) are the adapters of those two
-- engines: `Metrics` makes the metrics of a scrape, `Adapter` has the adapter's state and
-- `get_metrics`, with the contents of the locks passed on. `Sglang/Polls` is about one poll of
-- SGLang, `Sglang/Latches` about runs of them and about the lookups of the drafter, and
-- `Vllm/Warming` about a poll in the warmup. Scraping is what both do with counters and rates, with
-- `warmup_skip_from_env` of src/engines/common.rs. Models (src/engines/model_info.rs) is
-- `ModelResolver`, which both ask for the model: its name, with `normalize_model_id` in
-- Models/Names, and what the hub says of it; Models/Hub is about the cache and the cooldown,
-- Models/Paths about names in the hub's cache. The reading of bodies by serde, the answers of the
-- server and of the hub, and the readings of the clock are arguments.
--
-- Warmup (src/engines/warmup.rs) is the state machine that takes the first requests of an engine
-- out of its metrics; it reads the `ParsedMetrics` of Prometheus (src/engines/prometheus.rs), which
-- combines the label series of the samples that the crate `prometheus_parse` returns of the text
-- that `Prometheus/Exposition` hands to it. Histogram (src/engines/histogram.rs) has percentiles,
-- goodput and the buckets on the wire, and Rates (src/engines/common.rs) the rates of token
-- counters.
--
-- ConfigStore (src/config_store.rs) writes the document by way of a temporary file. The operations
-- of `tokio::fs` are the interface `FileSystem`, their documented behaviour `FileLaws`. An
-- operation ends as done, failed or crashed, and nothing runs after a crash. Server (src/server.rs)
-- has the three handlers of the document and their responses.
--
-- Snapshot (src/metrics/mod.rs) is the body of the collector's loop: which devices are monitored,
-- and the snapshot of a tick from what NVML, sysinfo and procfs answer, which is the record `Host`.
-- Gpu (src/metrics/gpu.rs, and gpu_sim.rs in `Gpu/Simulated`) has the metrics and events of the
-- devices and the GPUs of an engine, Cpu (src/metrics/cpu.rs) the CPU metrics, Disk
-- (src/metrics/disk.rs) the text of /proc/diskstats, the names of whole devices and the rates,
-- Network (src/metrics/network.rs) the choice of the primary interface, and Memory
-- (src/metrics/memory.rs) the headline total and, in `Memory/Topology`, the detection of unified
-- memory. Overrides (src/main.rs) has the engines that are configured by hand.
--
-- Logs (src/logs.rs) cuts the frames of a container's log into lines, with the decoding of bytes as
-- a parameter, and finds the container of an engine; `Registry` has the streams that its clients
-- and tasks share, as a step relation. The fuel of the loop over the buffer is the buffer's length,
-- which each turn shortens.
--
-- Conventions. Times are nanoseconds of the monotonic clock, and every reading of the clock is an
-- argument. Maps are association lists; a theorem that needs distinct keys says so. The floats are
-- a parameter, `F64` in Float, with the operations and no laws; a theorem that needs a law of IEEE
-- 754 takes it as a hypothesis. Integers are the native natural numbers with the wrap-around of
-- their width written out: the failure counter of an engine modulo 2^32, the traffic modulo 2^64,
-- and the saturating product of the memory total. The fuel of `next_power_of_two` is 64 doublings,
-- which pass every 64-bit number. Tests at concrete inputs are in the Tests modules, with their
-- data in Engine/Sample, Float/Sample and ConfigStore/Disk.
--
-- Not modelled: the sending of requests, the text format of a scrape, the frames of a log stream
-- and its socket, the WebSocket broadcast, the command line but for the engines configured by hand,
-- the service, routing and static files, and the stubs for other systems than Linux. These are
-- requests to other systems or calls of libraries for the most part. Log lines are left out
-- everywhere.
pub mod Adapters
pub mod ConfigStore
pub mod Cpu
pub mod Detection
pub mod Disk
pub mod Engine
pub mod Float
pub mod Gpu
pub mod Histogram
pub mod Http
pub mod Int
pub mod Json
pub mod LlamaCpp
pub mod Logs
pub mod Memory
pub mod Models
pub mod Network
pub mod Ollama
pub mod Overrides
pub mod Prelude
pub mod Prometheus
pub mod Rates
pub mod Scraping
pub mod Server
pub mod Sglang
pub mod Snapshot
pub mod Sorting
pub mod Text
pub mod Vllm
pub mod Warmup
