-- ===== src/Lib.antt =====
-- Pogo is a language server for Django's ORM, written in Go. A client talks to the lifecycle
-- (internal/lsp), which admits requests by its state and hands text changes to the store of open
-- documents (internal/analysis). A worker process describes the Django models; the manager
-- (internal/python) publishes what it reports as a graph in a cache (internal/schema), which the
-- analysis reads to complete and to check field paths in queries.
--
--   Prelude: Boolean tests, lists over the native numbers, bytes, signed integers and association
--     lists.
--   Utf8: what internal/analysis/document.go calls of Go's unicode/utf8.
--   Position: `ByteOffset` and `PositionAt` of internal/analysis/document.go (byte_offset,
--     position_at), their loops as recursion over the bytes not yet visited.
--   Edit: `pointForOffset`, `replacementEndPoint` and `validateSource` of the same file.
--   Store: the loop of `Store.Change` over the changes of one notification (change_range,
--     change_one, change_all); Store.Documents: the methods of `Store` as functions on an
--     association list from URI to document, which return the new map or an error.
--   Lifecycle: `Lifecycle.Handle` of internal/lsp/lifecycle.go (handle) and the callbacks that it
--     reaches; what a request does outside is a list of effects. The worker's callback may report
--     a failed schema load between requests (react).
--   Cache: internal/schema/cache.go. Refresh: the sections of internal/python/manager.go that run
--     under the manager's lock, one function each; Refresh.Supervisor: what `Manager.loop`
--     decides behind a run of the worker (supervise), for a manager that has a callback to
--     notify.
--   Schema: the tables of accesses of internal/schema/graph.go (add_access, add_relation).
--     Schema.Index: the loop of `buildModelIndex` that enters the fields under their names
--     (index_fields, build_index). Schema.Graph: the look-ups and visits of `Graph` that the
--     paths use.
--   Paths: `consumePathSegment` and `consumeFieldSuffix` of internal/analysis/path.go;
--     Paths.Complete: `CompletePath`; Paths.Validate: `ValidatePath` and `ResolvePathSegment`;
--     Paths.Split: `splitPath`, and `diagnosticPathSegments` of internal/analysis/diagnostic.go.
--   Text: the classes of bytes and runes of internal/analysis/path.go and infer.go, and what they
--     call of Go's strings.
--   Scan: the scanners over the text of a call: `topLevelEquals`, `trimByteRange` and
--     `diagnosticKeywordPath` of internal/analysis/diagnostic.go, `keywordArgumentValueStart` and
--     `argumentKeyword` of path.go, `firstCallArgument` of infer.go, `firstPositionalArg` of
--     definition.go. Scan.Calls: `pythonCodeMask` and `expressionBefore` of infer.go and the
--     enclosing calls of path.go; Scan.Arguments: `activeArgument`, `positionalArgumentIndex` and
--     `activeArgumentEnd` of path.go, and `splitStaticArguments` of diagnostic.go
--     (Scan.Arguments.Static). `activeArgument` has a state and steps of its own (Active,
--     active_step), apart from those of `pythonCodeMask` (Lexer, lex); `splitStaticArguments`,
--     whose loop passes over strings and comments as that of `pythonCodeMask` does, is modelled
--     with lex. Scan.Literals: `stringPathRange` and `stringListPathRange` of path.go;
--     Scan.Names: `keywordPathRange` of path.go, `identifierRange` and `keywordNamePosition` of
--     infer.go. A loop over an index is a recursion over the bytes from there on.
--   Build: the snapshot of internal/schema/dto.go. Build.Valid: `validateModel` and what it calls
--     in internal/schema/graph.go; Build.Tables and Build.Graph: `buildModelIndex` and the loops
--     of `Build` over the apps and their models; Build.Linked: `Build` itself and the look-ups by
--     label and class; Build.Views: the look-ups in the tables of a model, and
--     `RelationFieldForSource`. A pointer to a model in a table is the label of the model, a map
--     is an association list in the order in which the loops take it, and of an error only that
--     there is one is kept.
--   Frames: `ReadFrame` and `WriteFrame` of internal/python/frame.go.
--
-- Numbers of 32 and 64 bits wrap around as in Go. The loops over runes, and those of
-- `expressionBefore` and `stringListElements`, take as fuel the bytes that are left or one more,
-- and every round takes a byte. Text is a list of byte values.
--
-- Parameters, because their code is not part of the repository: tree-sitter's parser and the
-- queries over its nodes (the record Parser of Store, whose behaviour, as far as the store relies
-- on it, is ReparseLaws of Store.Documents.Invariant; FuzzUTF16EditMatchesFullParse of
-- internal/analysis/document_test.go compares the two parses in the same way), glsp's decoding of
-- requests and the answers of the worker and of the features (the record Request of Lifecycle),
-- clocks, contexts and the disk (arguments of the functions of Refresh), Go's path/filepath and
-- its file system (the record Paths of Build.Graph), the letters of Go's unicode package (is_word
-- of Text and Scan). `ResolvedPath` of internal/schema/graph.go, which asks the file system for
-- every ancestor of a path, is a field of Paths too.
--
-- Not modelled: processes, sockets, files and JSON; the heuristics over syntax trees in
-- internal/analysis; logging; the conversions between the types of glsp and those of the
-- analysis; the test harness.
pub mod Prelude
pub mod Utf8
pub mod Position
pub mod Edit
pub mod Store
pub mod Lifecycle
pub mod Cache
pub mod Refresh
pub mod Schema
pub mod Paths
pub mod Frames
pub mod Text
pub mod Scan
pub mod Build
