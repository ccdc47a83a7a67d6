-- ===== src/Lib.antt =====
-- The decision logic of the MoE accelerator: which experts of a mixture-of-experts model are in
-- VRAM, how they get there, and how the offline replay of a routing trace judges a slab.
--
-- `Tier` is sabah/runtime/hot_tier.py. `Tier.Types` has the state: a `Pool` for the class
-- `BlockPool`, a `Shared` for the fields of `HotTier` that the blocks share, and the interface
-- `Bank` of what the tier reads from sabah/runtime/expert_bank.py. `Tier.Streams` is the staging
-- ring, the event pool and `_start_copy`; the device is the list of the commands submitted to it,
-- the newest first, and `Tier.Streams.Memory` reads off that list which bytes are in a slot.
-- `Tier.Pool` is `_evict` and the placement of an expert, `Tier.Ensure` is `ensure`,
-- `Tier.Prefetch` is `prefetch`, `Tier.Build` is the constructor, and `Tier.Calls` is a sequence of
-- calls on one block. An exception is a value of `Result`; what a call that raises leaves behind is
-- not kept. The lock makes each call one step.
--
-- `Tier.Blocks` is both calls on the tier of all blocks, which share the device.
--
-- `Executor` is sabah/runtime/executor.py and sabah/runtime/mtp_prefetch.py: the blocks of a token
-- run over that tier, without and with prefetch behind them. The block kernel is a parameter, a
-- predictor any implementation of `observe` and `candidates`, of which `Executor.Frequency` is
-- one.
--
-- `Slab` is tools/slab_replay.py: `Slab.Lru`, `Slab.Lfu`, `Slab.TwoQ`, `Slab.Arc` and
-- `Slab.PerLayer` are its classes, `Slab.Replay` is the loop that counts the misses of a policy.
-- An `OrderedDict` whose values do not matter is the list of its keys, the oldest first.
--
-- `Ngram` is sabah/runtime/ngram_prefetch.py: `Ngram.Runs` is `_runs`, `Ngram.Table` the classes
-- `NgramTable` and `NgramPrefetcher`. The mapped shard is a list of bytes, the page size and the
-- page hints of the system are parameters, token ids are natural numbers.
--
-- `Residency` is `tensors`, `plan` and `load` of sabah/runtime/residency.py: `Residency.Load` is
-- the copy into VRAM, with the allocations on the device as a parameter.
--
-- `Bank` is sabah/runtime/expert_bank.py and sabah/runtime/identity.py: `Bank.Build` is the
-- constructor, `Bank.Slice` the reads, `Bank.Warm` `_load_ram` and `load_warm`. A shard is the list of
-- its bytes, and a read past its end is short. `Bank.Served` puts the hot tier on such a bank.
--
-- `Inspector` is `inspect_model` of sabah/core/model_inspector.py, from the tensor table on: names are
-- numbers, and the regular expressions on names are parameters.
--
-- `Planner` is `plan` of sabah/planner/planner.py. Python's floating-point numbers are the interface
-- `Scalar`; a division by zero raises, and `Laws` names what is relied on of the arithmetic.
--
-- `Hardware` is `qualify` of sabah/hardware/profile.py, from the probes of the machine on;
-- `Hardware.Reserved` puts the planner on the machine that it makes.
--
-- `Locality` is `lru_hits` and `reuse_distances` of tools/trace_locality.py, with whole bytes as
-- weights.
--
-- `Proxy` is sabah/server/openai_proxy.py: `Proxy.Handler` the request handlers over
-- `Proxy.Chunks`, the framing of streamed answers; `Proxy.Backend` the launch arguments and the
-- wait for the backend. The backend is a function from what is forwarded to what it answers, JSON
-- texts are a parameter.
--
-- `Base` has what the parts share: Python's exceptions, dictionaries and ordered sets as lists.
--
-- Fuel: the loop of `ensure` that sheds experts (`shed`) runs on fuel. It is given the number of
-- resident experts, and each round removes one. The wait for the backend (`wait_backend`) has fuel
-- for a round in each second of its timeout and two more, and a theorem that it ends within them;
-- the digits of a chunk's length have one unit more than the length.
--
-- Not modelled: times in milliseconds, device calls of the tier that fail, addresses (a parameter
-- of the constructor), the kernels (a parameter of `Executor`), `preload`, the replay `belady`,
-- the choice of the n-gram tensor, the texts of notes and summaries, the GGUF reader, the paths of
-- split files, the pinned pointers of the bank and its `close`, the sockets of the proxy, a client
-- that goes away, and `serve`, the queries of the machine, the saved hardware profile,
-- `apply_plan`, and the other policies of the locality analysis. The command line, the benchmarks
-- and the scripts parse options, start processes and print measurements; the CUDA kernels and the
-- copy of llama.cpp are other languages or another project.
pub mod Base
pub mod Bank
pub mod Executor
pub mod Hardware
pub mod Inspector
pub mod Locality
pub mod Ngram
pub mod Planner
pub mod Proxy
pub mod Residency
pub mod Slab
pub mod Tier
mod Tests
