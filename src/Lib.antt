-- ===== src/Lib.antt =====
-- Verification of AIStudio2API, a proxy that serves OpenAI, Anthropic and Gemini requests
-- with Google AI Studio accounts.
--
-- A request passes the gates of internal/api (middleware.go, admin_auth.go), joins a queue of
-- internal/app/dispatch.go, the account pool of internal/aistudio/accounts.go and channel.go
-- classifies the accounts and hands out a lease on one of them, the answer is read through
-- the sparse JSON reader of internal/aistudio/decoder.go and cut at stop sequences by
-- internal/aistudio/stop.go, and what the answer shows of the account (a cooldown, a verified
-- model, a resource) is recorded in the account's runtime state. A bidi session gives its
-- lease back through the gate of internal/app/auth_retry.go. Requests are signed by scripts
-- on the event loop of internal/waa/loop.go.
--
-- The modules:
--
--   Prelude: shared helpers. Text is a list of character codes and compares as Go's strings
--     do; a map is an association list, of which only lookups are observed, or the order of
--     which Go leaves open; stable sorting, rotation.
--   Pool.Types: the records of types.go, benefit.go and accounts.go. A pointer to an account
--     is its position in the store; times are numbers, 0 the zero time.
--   Pool.Catalog, Pool.Channels: which account and which channel serves a selection
--     (supports_model, account_supports_selection, channel_supports and the others, under the
--     names of the source without "Locked").
--   Pool.Cooldown: accountCooldown and the keys of scopes. Laws compares it with the
--     cooldowns stored.
--   Pool.Cooldown.Quota: the cooldowns of quota errors, quota.go, with the calendar as a
--     parameter. Barring is about what the pool makes of them.
--   Pool.Candidates: selectionIndicesLocked, OrderCandidates and channelCandidatesLocked.
--     Order is about what they offer.
--   Pool.Leases: tryAcquireLocked (try_acquire), Release, AcquireAccount (add_waiter,
--     try_exclusive for one round of its loop, remove_waiter), BeginAuthRefresh and the
--     function that it returns (end_auth_refresh). Grants and Progress are about try_acquire;
--     World, Exchange and Ledger count the slots against the leases that are out.
--   Pool.Runtime: the mutations of an account's runtime state by cooldown and access reports.
--     Verdicts is about their order.
--   Pool.Resources: updateRuntimeContext, with what other goroutines do where it gives up the
--     mutex as an argument, markStaleAccountUnavailable, and syncAccountRuntimeLocked;
--     Bindings has the binding of resources. Index and Owners are about the index of owners,
--     Slots about what a sync does and leaves alone.
--   Pool.Classify: classifyCandidatesLocked, the reasons of NoEligibleError, account states.
--     Slots and Listed compare the classification with what a lease needs.
--   Pool.Acquire: AcquireFor and TryAcquireFor, refreshAndValidateLease and
--     refreshAccountRuntime. A list of turns holds what comes from outside in each round: the
--     clock, what other goroutines do, the account's file. Rounds is the induction over
--     rounds, Slots and Balance are about slots, Validity is about the lease that is
--     returned.
--   Pool.Membership: Add and Remove, the latter in the parts that run under the mutex.
--     Indexes, Leaving and Synced are about the indexes of accounts and resources after one
--     part, Steps about any sequence of them.
--   Dispatch: dispatchQueue and dispatchWaiter of dispatch.go; a panic of waiters[0] is
--     `none`. Joining and Heads are about the heads of queues, Runs about sequences of
--     operations.
--   Gate: bidiReleaseGate as a step relation, a step for what happens under the mutex and one
--     for the call that follows. Safety is about all interleavings.
--   Loop: eventLoop; a step for each part under the mutex. Order is about the order of jobs.
--   SparseJson: sparseJSONReader. Stream is about what its reads add up to.
--   Stop: stopSequenceMatcher over runes. Earliest is about one write.
--   Wire: the Struct and Value of function calls in internal/aistudio/tools.go. Encode is
--     encodeWireValue, Decode is decodeWireValue with the raw accessors of decoder.go;
--     Ordered and RoundTrip take one after the other, Fuel and Depth are about the
--     recursion's depth.
--   Api.Access: the middlewares of internal/api/middleware.go and their chains in router.go
--     and admin_auth.go. Public and Console are about the requests that they let in.
--   Api.AdminAuth: the sessions and login attempts of internal/api/admin_auth.go. Sweep is
--     about the loop over the sessions, Sound and Sessions about all that are kept, Logins
--     and Attempts about the rate limit, Tickets about one token.
--   Api.Signatures: the store of internal/api/thoughtsig.go. Fifo is about what it keeps.
--   Api.Responses: responseStateStore of internal/api/responses.go, over messages of any
--     type. Rounds is about the loop of Load, Eviction about one eviction, Chains and Storing
--     about what is loaded after a response is stored, Ending, Ordered and Reached about the
--     length of chains in every store that the server can reach.
--   Api.Failures: the statuses and names of errors in internal/api/errors.go.
--   App.Lifecycle: Start and Stop of trackedService in internal/app/runtime.go, one
--     definition for each part under lifecycleMu. World interleaves them, a step for each
--     part; Invariant, Parts, Stopping and Safety are about all interleavings, Endings about
--     what a Stop leaves.
--   Upload: boundedUploadReader, the loop of uploadDriveResumable, putDriveUploadChunk and
--     parseDriveUploadResponse in internal/aistudio/upload.go. A body is what it holds and
--     how it is cut into reads. Reading and Whole are about one ReadFull, Chunks and Files
--     about the upload.
--   WebChannel: readWebChannelFrames and readUTF16Units of internal/aistudio/webchannel.go
--     over decoded runes. RoundTrip reads what is written.
--   Config: Validate of internal/config/config.go and the default. Channels and Validity are
--     about what is accepted.
--   Tests, Config.Tests, Api.Responses.Tests, App.Lifecycle.Tests, Upload.Tests,
--     WebChannel.Tests, Pool.Cooldown.Quota.Tests, Pool.Tests, Pool.StateTests,
--     Pool.Acquire.Tests, Pool.Membership.Tests, Wire.Tests, Api.Tests: runs at concrete
--     inputs, on the pool of Pool.Samples.
--
-- Each operation of the pool but updateRuntimeContext and those of Pool.Acquire and
-- Pool.Membership runs under its mutex as a whole, so it is one function from pool to pool,
-- and an interleaving is a sequence of such steps. Every loop is over a list and written by
-- recursion on it, but for the waiting loop of AcquireAccount, of which one round is a step,
-- and those of AcquireFor and TryAcquireFor, which run along a list of turns and may be
-- unsettled at its end, as the code may go on. decode_wire_value recurses on fuel, for which
-- the depth of the message is enough. Load follows parents for a number of rounds, for which
-- the capacity of the store and one more are enough in every store that is reached. A
-- ReadFull takes a number of reads, for which two more than the short reads of the body, and
-- one, are enough, and the upload a number of rounds, for which one more than the bytes of
-- the file is enough. readWebChannelFrames takes a number of rounds, one for each frame and
-- one for the end. Counters and times are natural numbers and do not wrap.
--
-- What other code decides is an argument: whether flock takes a lock (TryLock), what the file
-- of a runtime state holds, the callback that takes the frames of a WebChannel, whether the
-- source of a reader has bytes buffered, how encoding/json prints and reads numbers and
-- canonical arguments, what net and net/url make of a text, which random token a login gets,
-- what the server answers to a chunk of an upload, how strconv reads a number and what the
-- calendar of the quota's time zone says.
--
-- Not modelled: the reading and writing of files, HTTP, the browser and the JavaScript engine
-- (a copy of goja); the refresh of the model catalog, the workers and the retries of a
-- request in internal/app/runtime.go; refreshResource and refreshSelectionRuntimes, which are
-- arguments of AcquireFor, SetCatalog; the encoding of requests, the dialects of the HTTP API
-- and its access log; the web interface.
pub mod Prelude
pub mod Pool
pub mod Dispatch
pub mod Gate
pub mod Loop
pub mod SparseJson
pub mod Tests
pub mod Stop
pub mod Api
pub mod App
pub mod Upload
pub mod WebChannel
pub mod Config
pub mod Wire
