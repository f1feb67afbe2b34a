-- ===== src/Lib.antt =====
-- A model of the web application that edits QMK keymaps and builds firmware from them, in five
-- parts: the store of builds, which the API and the workers share, the state of the keymap editor
-- in the browser, the stored configurations that a build cites, the generator that turns one
-- into a keymap for QMK, and the worker that takes builds from the store and has them compiled.
--
-- The API creates a build and may ask for its cancellation; workers claim builds, renew their
-- leases, move a build along its statuses and finish it; two sweeps give expired leases up and
-- drop expired artifacts and logs. All of this goes through one store. The editor changes a
-- document, which the API saves as a revision of a configuration.
--
-- Files, with the code that they model:
--   * Domain/Limits: packages/domain/src/limits.ts.
--   * Domain/Build: packages/domain/src/build.ts. `transitions` is TRANSITIONS; Domain/Build/Graph
--     has the statuses that legal transitions reach.
--   * Domain/Configuration: the types of packages/domain/src/configuration.ts. Domain/Schema: the bodies
--     of its `superRefine`, each as the list of its issues; Domain/Schema/Macros is about macros.
--   * Domain/Socd: the tables of packages/domain/src/socd.ts and the verified keyboards of
--     module-registry.ts. Domain/Catalog: of catalog.ts what validation reads, and the codes of
--     errors.ts. Domain/Validate: validate.ts behind `parseConfiguration`, where a DomainError is
--     `refused` with its code and its field errors.
--   * BuildQueue/Types and BuildQueue/Store with its children: packages/build-queue/src/types.ts and
--     memory-store.ts. Each method of InMemoryBuildStore is a function of the same name that takes
--     the time of the call and the store and returns the result and the next store: the
--     repository's calls in Store, the worker's in Store/Queue, the sweeps in Store/Retention.
--     BuildQueue/History has the step relation on stores, one constructor for each method that
--     writes. The other files of BuildQueue are about what the methods do.
--   * Editor/State, Editor/Layers and Editor/Reducer: apps/web/src/lib/editor-state.ts. Each case of
--     `editorReducer` is a clause of `editor_reducer`, with a function of its own where it branches.
--     Editor/History is about undo and redo, Editor/Structure about the documents.
--   * Configurations/Repository: apps/api/src/configurations/memory-repository.ts and types.ts. `create`,
--     `list`, `delete` and `summarize` are `create_record`, `list_records`, `delete_record` and
--     `summarize_record`; the RevisionConflictError of `update` is `conflict`. The other files of
--     Configurations are about its histories.
--   * Domain/Keycodes and Domain/Identifiers: keycodes.ts and identifiers.ts of packages/domain/src; a
--     regular expression is an automaton on the characters. Domain/Schema/Fields: the schemas' rules on
--     keycodes, numbers and counts.
--   * Generator/Tokens and Generator/Keymap: packages/qmk-generator/src/generate.ts. `renderBinding` and
--     `renderMacros` are in the first; in the second `keymap_document` is the part of `generateKeymap`
--     that builds `keymapJson`, and `generate_keymap` is the whole. Tokens/Allowed, Tokens/Macros and the
--     children of Keymap are about them. What is thrown is a value of Attempt.
--   * Worker/Keys: packages/artifact-store/src/keys.ts. Worker/World: what a worker runs in, with the store
--     in memory of packages/artifact-store/src/memory-store.ts. Worker/Runner:
--     services/worker/src/queue-runner.ts, Worker/Options what it is given and what a compile returns,
--     Worker/Maintain its `maintain`. `#process` is `process` and, from each of its branches on, the functions
--     before it; `#fail` is `fail_run`, `#cancel` is `cancel_run`. The children of Runner are about what
--     a turn does. Worker/Collect: services/worker/src/collect-artifact.ts, `collectArtifact` over the
--     entries of the build's directory; Collect/Sole is about what it returns.
--   * Common: dictionaries, sorting, decimal texts and lists measured by native numbers.
--   * Tests: runs on concrete data.
--
-- What the model assumes of values. A time is a number of milliseconds: the code compares ISO
-- texts, all of which come from `toISOString`, where the order of the texts is the order of the
-- times, except for years that have more than four digits. `Date.now()` and `new Date()` of one
-- call are one argument `now`. Where the code takes a duration from `now`, the model adds it to the
-- other side of the comparison. An id is a text; `randomUUID` and `newId` are arguments, and a new
-- build comes under an id that the store does not have. Numbers are natural numbers without a
-- bound; the page size is positive where a theorem says so. A map is a list of entries in the order
-- of insertion. The bindings of a layer are one, too, where the code has an object that lists numeric
-- keys in ascending order; of what is modelled only the order of issues depends on it. `structuredClone` is left out, since values are never changed in place.
-- `sort` is a stable insertion sort. A method of the store runs to its end without another call in
-- between, as its comment says of the event loop. The failure code CANCELLED is `cancelled_code`,
-- and the outcome 'cancelled' of a cancellation is `outright`.
--
-- A worker's code is a function of a world: the store, the objects and a counter. Each call that it awaits
-- takes the next turn of a sequence that is an argument; a turn has the time, what other processes have
-- done to the store and the objects since the turn before, and whether the call works, fails at
-- once, or works and then loses its answer. What is thrown is a value. `runBuild`, the lookup of a
-- configuration, the catalogs, the text of a failure's log and `randomUUID` are arguments. The
-- heartbeats of a compile are a number of calls before its result; one that comes later is one of the
-- other processes' calls.
--
-- Recursion is structural but for the decimal digits of a number, which have one round of fuel more
-- than the number: each round divides it by ten.
--
-- Not modelled: the SQL stores and the database, the routes and the pages, the
-- process and the loop around the worker's turns, the sandbox and `runBuild` between it and the
-- collection of the firmware, the making of the catalog, and the assistant. Of the schemas the
-- formats of ids, names and dates are not modelled, which are calls of a library. `JSON.stringify`, the
-- count of bytes in UTF-8, the length and the SHA-256 of a buffer and the normal form NFC are
-- arguments. An entry of a build's directory comes with what `statSync` and `readFileSync` find under
-- its name.
pub mod Common
pub mod Domain
pub mod BuildQueue
pub mod Configurations
pub mod Editor
pub mod Generator
pub mod Worker
pub mod Tests
