-- ===== src/Lib.antt =====
-- ragota indexes repositories, joins services by the contracts that they share, and answers search
-- and graph queries. This library models the parts whose correctness carries the product, as pure
-- functions on explicit states, translated from the Go code, and proves what makes them right.
--
-- Parts and files
-- - Base: numbers, tests, lists; Base/Sort is a stable sort; Base/Text is Go's package strings
--   over byte lists, with its laws in Base/Text/Laws and Base/Text/Bytes; Base/Int is an int that
--   may be negative.
-- - Contract (internal/contract/contract.go, ident.go): the join keys that parsers write and the
--   linker reads. Contract/Reduce has the path reduction, Contract/Keys the constructors (GRPC is
--   grpc_key, HTTP is http_key, and so on) and parsers, Contract/Ident the words of identifiers,
--   Contract/Split is SplitTopLevel and ParamNames, Contract/Table is TableName.
-- - JobQueue (internal/store/sqlite/jobs.go, queries.sql.go): the shared queue of indexing jobs.
--   A method is a function from a queue and the current time to a queue and an answer.
--   JobQueue/Step is the step relation over the SQL statements, in any order: ReleaseIndexJob and
--   RequeueStaleIndexJobs run two statements each with no transaction around them, so that release
--   and requeue_stale, their composition, describe a call with no other statement in between, and
--   each statement is a step of its own (release_free and complete; sweep_surplus and sweep_rest).
--   One thing is assumed there (Interrupted): a worker claims no job between the two statements
--   of its own release, since the worker of an instance is one goroutine (pollIndexJobs).
-- - RepoStore (internal/store/sqlite/repos.go): the rows of repos with the claim that one
--   indexing pass holds (ClaimRepoForIndexing is claim_repo, UpdateRepoStatus is update_status);
--   RepoStore/Register has registration, listings, the active set and retrievalScope
--   (internal/app/active.go).
-- - Commits (internal/app/commits.go, jobs.go): pushed commits. Commits/Plan is the merged plan,
--   Commits/Batch has ApplyCommits, its checks and runApplyCommits, Commits/Apply is the
--   incremental pass applyPlan, Commits/Local is ApplyLocalChanges, Commits/Worker is
--   runQueuedJob, which uses JobQueue and RepoStore, Commits/Jobs is pollIndexJobs, RepoJobs and
--   RepoJob. Their laws are in Plan/LastChange, Paths, Accept, Cursor and Order.
-- - Chunk (internal/index/chunk.go): the sliding-window chunker.
-- - Gitignore (pkg/gitignore/gitignore.go): Gitignore/Line parses a .gitignore, Gitignore/Check
--   is Rules with its caches, Gitignore/Spec the verdict without them.
-- - Linker (internal/graph/linker.go): Linker/Config resolves references to config keys
--   (matchConfigKey), Linker/Rpc finds the methods of a gRPC key (rpcCandidates), Linker/Route the
--   routes of an HTTP call (routeCandidates), Linker/Table the tables of a database key
--   (tableCandidates), Linker/Local the definition that a call means (resolveLocalTarget);
--   Linker/Unit has a Go map of slices.
-- - Graph (internal/graph/graph.go): Graph/Edges has expand, the successors of a unit with the
--   contract indirections, Graph/Path the breadth-first search Path; the proofs are below
--   Graph/Path, from the walks (Walks) over a round (Round) to the answers (Shortest).
-- - Search (internal/search/hybrid.go): Search/Fuse is fuseBy, Search/Merge is mergeSpans,
--   Search/Rank the rank stage (applyRerank is apply_rerank, blendRerankScores is
--   blend_rerank_scores), Search/Hit a hit.
-- - Server (internal/server/api/ratelimit.go): Server/RateLimit has the token buckets (Allow is
--   allow, cleanupOldClients is cleanup_old_clients), Server/RateLimit/Runs any sequence of its
--   calls, Server/ClientIp who a request is counted for (clientIP, rateLimitKey) and the
--   middleware.
-- - WatchBudget (internal/server/watch/budget.go): how many watches the watcher may install.
--
-- Conventions
-- - A Go string is the list of its bytes. Case mapping and white space are those of ASCII.
-- - A database table is the list of its rows, index_jobs in id order; a statement that would
--   break the unique index over pending index jobs fails and changes nothing. A database error
--   other than that is not modelled, nor are logging, metrics and contexts.
-- - The limiter counts tokens exactly, in parts of a token, where the source uses float64, and
--   the scores of routes are exact where the source uses float32. Allow reads the time before it
--   takes the mutex: a call of the model is one that has the lock, with the time that it read, and
--   these times need not ascend.
-- - The rank stage has float32 and float64 as arguments. The laws asked of them (IsOrdered in
--   Search/Rank/Blend) hold of the numbers of IEEE 754 with infinities and NaN: a comparison with
--   NaN is false, and only values that equal themselves are ordered.
-- - While a commit job's batch is applied (run_claimed), the rows of repos stand still between the
--   read of the repository, the claim and the end of the pass; only the queue may change.
-- - reduceSegment and its like go over runes and the model over bytes: they differ on texts that
--   are not valid UTF-8 only.
-- - Times and ids are natural numbers. Some loops do not walk a list and have fuel: the
--   chunker's, whose start grows by one line at least in a round, has the number of lines;
--   eachPathChunk, which drops part of the list in a round, has its length; the printing of a
--   number n has n + 1; a unit is queued once, so the path search has a round for each unit and
--   two more.
-- - What is outside the repository is an argument: the file system, git's index and doublestar
--   in Gitignore, the open descriptors in WatchBudget, the JSON codec and the index passes in
--   Commits, the floating-point types and the reranker in Search, the address types in Server.
--
-- Not modelled: see the components of the manifest; language parsers, storage drivers, HTTP and
-- MCP front ends, language servers and models are left out.
pub mod Base
pub mod Chunk
pub mod Commits
pub mod Contract
pub mod Gitignore
pub mod Graph
pub mod JobQueue
pub mod Linker
pub mod RepoStore
pub mod Search
pub mod Server
pub mod WatchBudget
