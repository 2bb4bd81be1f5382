-- ===== src/Lib.antt =====
-- codesight: verification of the retrieval core of the `cs` command line.
--
-- A query (pkg/engine) is classified by the router, gets a budget of lines, asks its providers for the
-- definition, the references, the callers and the implementations of a symbol, ranks what they answer
-- and cuts the definition to its budget. An index (pkg) is made of the chunks into which the splitter
-- (pkg/splitter) cuts the files that the ignore rules (pkg/ignore) do not hide, and is stale once the
-- commit or the rules have changed.
--
-- The modules, and the files they are about:
--   Prelude                helpers: lists and tests over the native numbers, signed integers, stable
--                          insertion sort
--   Text                   Go's strings as lists of bytes, with the functions of the packages strings
--                          and path that the program calls
--   Engine                 pkg/engine/types.go
--   Engine/Budget          pkg/engine/budget.go: ComputeBudget is compute_budget, allocate is allocate
--   Engine/Router          pkg/engine/router.go: Classify is classify
--   Engine/Scoring         pkg/engine/scoring.go: ScoreReferences is score_references, ScoreCallers is
--                          score_callers
--   Engine/Syntax          the tree that the parser makes of a file, as data
--   Engine/Outline         pkg/engine/outliner.go: OutlineClassDefinition is outline_class_definition,
--                          extractMembers is extract_members, with a module per language in Members
--   Engine/Slicer          pkg/engine/slicer.go: SliceDefinition is slice_definition
--   Engine/Query           pkg/engine/engine.go: Query is query, querySymbol is query_symbol, queryText is
--                          query_text, queryPath is query_path; from pkg/engine/outliner.go the tests
--                          IsClassLikeType and isFailureCueQuery
--   Splitter               pkg/splitter/fallback.go: FallbackSplitter.Split is split_code
--   Ignore                 pkg/ignore/matcher.go: NewMatcher is new_matcher, MatchesRelative is
--                          matches_relative, MatchesPath is matches_path
--   Index                  pkg/version.go: IsStale is is_stale, StalenessInfo is staleness_info
--   Index/Run              pkg/indexer.go: Indexer.Index is index; the interfaces of pkg/vectorstore/store.go
--                          and pkg/embedding/embedding.go are the records Store and Embedder
--   Index/Walk             pkg/walker.go: walkFiles is walk_files
--   Index/Search           pkg/searcher.go: Searcher.Search is search; in Splitter/Language the function
--                          LanguageFromExtension of pkg/splitter/treesitter.go
--   Lsp                    pkg/lsp/protocol_types.go, and the paths of documents in pkg/lsp/refs.go
--   Lsp/Formatter          pkg/lsp/formatter.go: dedupeAndSortReferences is dedupe_and_sort_references,
--                          compactReferences is compact_references
--   Lsp/Refs               pkg/lsp/refs.go: RefsEngine.Find is find_refs, findWithLSP is find_with_lsp; in
--                          Lsp/Refs/Grep the search through the files
--   Lsp/Callers            pkg/lsp/callers.go: walkIncoming is walk_incoming; in Lsp/Callers/Find
--                          CallersEngine.Find is find_callers, in Lsp/Callers/Raw (callers_raw.go)
--                          FindCallersRaw is find_callers_raw, in Lsp/Names the comparison of names
--   Lsp/Implements         pkg/lsp/implements.go: ImplementsEngine.Find is find_implementations
--   Lsp/Registry           pkg/lsp/registry.go: Registry.Lookup is lookup_server
--   Lsp/Framing            pkg/lsp/client.go: writeLSPMessage is write_lsp_message, readLSPMessage is
--                          read_lsp_message
--   Lsp/Pending            pkg/lsp/client.go: registerPending, removePending, routeResponse and failPending
--                          as steps of a client whose goroutines take turns
--
-- State and errors. A result that the engine fills in step by step is a record that each step returns
-- changed. A call that can fail returns Option, or Fetched where the message of the error is used.
-- A method on a nil Matcher is not modelled.
-- The indexer passes the state of the store from call to call; each call that changes it gives the
-- message of its error, if any, and the next state.
--
-- Numbers. Lengths and lines are natural numbers; an int that can be negative is ℤ. The sum of
-- ComputeBudget wraps around at 2^64, as Go's int does on a machine of 64 bits. A float64 score is kept
-- exact, as its multiple of one over the number of path segments of the file of the definition; the
-- comparison of scores is the one of the exact values. Go rounds its sums, so that two references of
-- different files with the same exact score may differ in the last bit and stand in the other order; those
-- of one file do not. The sum of the line splitter wraps around too, and its panic is none.
--
-- Order. sort.SliceStable has one possible result, the one of the insertion sort of the prelude, and so
-- has sort.Strings.
--
-- Fuel. The text scan of the slicer runs on one unit for each line and one more, the line splitter on one
-- for each line, the loop over the batches on one for each chunk: each round goes at least one line or
-- chunk on. The search for the project root runs on one unit for each byte of the path and one more, since
-- each parent is shorter. The walk over the callers runs on one unit for each depth and one more.
--
-- Parameters. The Unicode tables, the file system, path.Match, filepath.Abs and filepath.Rel, sha256, the
-- clock, the parser, the store, the embedder and the providers of a query are arguments of the definitions
-- that use them. So are, for a run of the indexer, the list of the files of a project and the chunks of one
-- file. The walk of Index/Walk goes over a tree of files that is data. What a run relies on of its store is
-- stated as hypotheses: that a collection which is missing or dropped is empty, that a call which succeeds
-- has done its work, and, for the run that ends well, that a call which may be made succeeds.
--
-- Not modelled: the printing of a result, the splitter by syntax tree, the Milvus store and
-- the embedding service behind their interfaces, the configuration, the extraction
-- of symbols, the diagnostics, the
-- handshake with a language server and its daemon, and the command line.
pub mod Engine
pub mod Ignore
pub mod Index
pub mod Lsp
pub mod Prelude
pub mod Splitter
pub mod Text
