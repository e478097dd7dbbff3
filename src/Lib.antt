-- ===== src/Lib.antt =====
-- openclaw-cortex, a memory system for agents in Go: a verification library beside the code.
--
-- The program stores memories, facts and entities in a graph database and serves them to agents, by
-- an HTTP API (internal/api) and the tools of an MCP server (internal/mcp). An indexer turns markdown
-- files into memories (internal/indexer).
-- Before a turn a hook recalls memories within a budget of tokens, after it another captures new
-- ones (internal/hooks). Recall ranks by several scores and merges the vector search with a graph
-- traversal (internal/recall, internal/memgraph). A capture looks for contradictions
-- (internal/capture), and entities and facts are extracted from what was stored (internal/extract),
-- in the commands at once or by the workers of a durable queue (internal/async). A lifecycle manager
-- expires, merges and retires memories (internal/lifecycle), resolvers decide with a language model
-- whether an entity or fact is known already (internal/graph), and a client guards the calls of the
-- model (internal/llm).
--
-- The files:
--   Base: names of the libraries passed on, Boolean tests, lists, Go maps as association lists
--     (Base/Maps; their order is the order of a range loop, which Go leaves open), lists with each key
--     once (Base/Once), prefixes within a budget (Base/Budget), the signed integers (Base/Int), the
--     floating-point numbers and the package strings as abstract types with operations (Base/Float,
--     Base/Strings) and the exchange sort of mock_store.go (Base/Sort).
--   Models: the records of internal/models.
--   Async: Wal has the lines and the scan of the write-ahead log, Queue the methods of
--     internal/async/queue.go (NewQueue, replay, Enqueue, Complete, Fail, Status, Compact, Close) as
--     functions from a queue to a queue and a reply; the answers of the file system, the clock, fresh
--     ids and the order of a range loop are arguments. Pool has the loop of internal/async/worker.go
--     as `settle`, and the interleavings of workers and clients as the step relation `Step`. Processor
--     has its GraphProcessor over Extract.Run.
--   Store: Filters has matchesFilters and Mock the store in memory of internal/store/mock_store.go;
--     a method returns the new store and a reply, and Mock/Stats has Stats. Dedup has internal/store/dedup.go over the store's
--     methods that it calls, and Validation internal/store/validation.go.
--   Lifecycle: internal/lifecycle/lifecycle.go over `Access`, the store's methods that the manager
--     calls; Pages has listAll, Sweep the deleting loops, Ttl the 64-bit durations, Conflicts,
--     Consolidation and Manager the phases of these names and Run. Pages/InMemory makes the store in
--     memory an `Access`.
--   Graph: internal/graph/entity_resolver.go and fact_resolver.go, where the graph, the language model
--     and the JSON parser are the fields of `Resolver`, and MockClient, the graph client in memory of
--     internal/graph/mock_client.go.
--   Recall: internal/recall/recall.go, the Recaller and its settings here, Scores the scores and
--     RankWithGraphProximity, Fusion the reciprocal rank fusion, Merge RecallWithGraph with the
--     community sweep, Annotated the notes on conflicts; Reasoner has internal/recall/reasoner.go.
--   Extract: Entities has internal/capture/entity_extractor.go, Facts internal/graph/fact_extractor.go
--     and Run internal/extract/post_store.go over `Deps`, the calls that it makes; Run/Grounded makes
--     the two stores in memory a `Deps`.
--   Capture: Contradiction has the stages of internal/capture/contradiction.go over `Detector`, with
--     the heuristics on words in Filter; Candidates and Found define, without its loops, where a
--     candidate comes from and when it is warned of and confirmed. ConflictDetector has
--     internal/capture/conflict_detector.go and Quality quality.go.
--   Hooks: PreTurn has PreTurnHook.Execute of internal/hooks/hooks.go over `PreTurnHook`, PostTurn has
--     processSingleMemory of internal/hooks/pipeline.go over `PipelineDeps`, as a check and a commit,
--     between which other goroutines run. RerankCache has internal/hooks/rerank_cache.go.
--   Config: Validate of internal/config/config.go.
--   Tokenizer: pkg/tokenizer/tokenizer.go. Cursor: pkg/cursor/cursor.go.
--   Memgraph: Where has the conditions of buildWhereClause in internal/memgraph/store.go, and what
--     Cypher makes of them for a node; Traversal has RecallByGraphWithDepth of
--     internal/memgraph/graph.go over the rows of its queries.
--   Serving: `Backend`, what the servers call of the store, the embedder and the recaller, and what both
--     do with the results of a recall; Serving/InMemory makes the store in memory a `Backend`.
--   Api: the requests and answers of internal/api/server.go; Memories has the handlers of single
--     memories, Queries the others and the cursors, Routes Handler and auth. A handler takes the state
--     of the store and returns it with the answer. RateLimit has internal/api/ratelimit.go.
--   Mcp: the tools of internal/mcp/server.go and entity_tools.go, in the same way.
--   Indexer: Tree has ParseMarkdownTree of internal/indexer/tree.go, where a pointer is the place of a
--     node in the list of nodes, and the walk over the tree; Split has splitBySize, Files chunkFile,
--     IndexFile and IndexDirectory of internal/indexer/indexer.go over `Outside`, and Summaries
--     internal/indexer/summarizer.go.
--   Llm: the retry loop of internal/llm/resilient.go.
--   Samples and the modules Tests: concrete values, and the theorems at them.
--
-- Times are in nanoseconds from the zero time, which is 0. A mutex makes a method one step. The walk
-- of GetChain runs on as much fuel as there are memories and one step more, listAll on one step more
-- than the cap of 50000, and the walk over a section tree on as much as there are nodes: all are shown
-- to be enough. Slices and counters grow without a bound, except the TTL's duration and the cursors,
-- which wrap at 64 bits as in the program. sort.Slice, HMAC, base64, the JSON parser, the token bucket
-- and the language model are arguments; what the program relies on (a sort permutes, base64 decodes
-- what it encodes) are hypotheses.
--
-- Not modelled: logs and metrics; the Cypher queries but for their conditions, which act in the
-- database; the command line, the reading of the configuration and the embedders, which are calls of
-- other programs; the prompts but that of the indexer, and the cutting of
-- code fences and of text to a budget; the goroutines of the post-turn pipeline, of which the steps
-- are modelled; the circuit breaker, which is a library. In the queue, json.Marshal does not fail, an
-- append that stops early leaves a last line that does not decode, and a send finds no receiver
-- waiting; the waits between retries are left out with the panic of rand.Int63n on a wait that
-- overflows, and so is the number of tokens that the pre-turn hook reports.
pub mod Base
pub mod Async
pub mod Models
pub mod Store
pub mod Recall
pub mod Lifecycle
pub mod Graph
pub mod Capture
pub mod Extract
pub mod Tokenizer
pub mod Config
pub mod Cursor
pub mod Hooks
pub mod Serving
pub mod Api
pub mod Mcp
pub mod Indexer
pub mod Memgraph
pub mod Llm
pub mod Samples
