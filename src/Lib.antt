-- ===== src/Lib.antt =====
-- KubeDebugSess: a Kubernetes operator that attaches a debug container to a running pod, and a
-- proxy that connects a user to it. This library models the controller and the proxy in Go.
--
-- The program. The controller (internal/controller) reads a DebugSession, looks up a reconciler for
-- its phase and runs it; each reconciler calls the API server and others, and stores the session in
-- its next phase. The pending one checks the target, the injecting one adds the ephemeral container
-- and stores a token, the active and the retrying one watch the container's status, the terminating
-- one archives its log in S3. The proxy (internal/proxy) takes a WebSocket request with the token,
-- finds the session and streams between the socket and the container.
--
-- The files, and the code they model:
--   Prelude            the shared names, Boolean tests, integers of w bits, decimal numerals,
--                      texts joined at a character (Texts)
--   Api                api/v1alpha1/debugsession_types.go; the phases are a data type, with their
--                      texts (`phase_text`, `phase_of`). Registration is groupversion_info.go and
--                      the `init` beside the types. DeepCopy with its Memory is
--                      api/v1alpha1/zz_generated.deepcopy.go on a heap of cells
--   Kube               the objects of Kubernetes that the code reads and writes, with those fields
--   Cluster            what is outside: `Env` answers each `Call`; `M` passes the history along
--   Updates            the status updates of a history; `KeepsStatus`
--   SessionPhases      internal/controller/session_phases: Outcome (errors.go), Update
--                      (phase_reconciler.go), Reason (reason_handler.go)
--   Reconcilers        internal/controller/session_phases/reconcilers: Pending; Injecting with
--                      Token, SecurityContexts and NodeInfo; Active with Webhook and its Delivery;
--                      Retrying with Backoff; Terminating with Logs; Completed; Failed; Containers
--                      holds the searches by name that they share
--   Controller         internal/controller/debugsession_controller.go and the registry of
--                      phase_reconciler.go with the `init` functions that fill it; Diagram is the
--                      specification of the phases, Follows and Runs relate the code to it;
--                      Edits gathers the changes that a run makes to a session, with what a
--                      property needs to survive each of them; Isolation is about the session that
--                      a run stores; Targets is about the pods whose events start a run
--   Proxy              internal/proxy/server.go: Text (the functions of package strings that it
--                      calls), Connection (`wsconn` and the queue), Server (`ServeHTTP`, `stream`),
--                      Streaming (the goroutines of `stream`, as steps in any order)
--   System             the controller and the proxy together: Guarded (readiness and tokens over
--                      all runs), Attach (sessions as they are created), Access (who reaches a
--                      debugger), Store (what the API server holds after a run), Population (all
--                      sessions of a cluster, as users and the controller change them), Lifecycle,
--                      Exhaustion (of the retries), Panics, Conflicts (of the status updates),
--                      Orphans (sessions whose pod is gone), Listing and Unordered (the order of
--                      the sessions that the proxy reads), Relapses, Reinjection, Announcement
--                      (the webhook's message)
--   Startup            cmd/main.go, cmd/proxy/main.go, `SetupWithManager` and the set-up of the AWS
--                      client: Flags, Options, Calls with Order, Manager, Proxies
--   Tests              a sample cluster and the theorems applied to it
-- A module named Laws, Steps, Safety, Access, Wait, Hex, Drains, Order, Follows, Runs, Registry,
-- Requests, Targets, Edits with its children, Archives, Isolation, Sessions, View or Lists, and all
-- of System, hold proofs. A method `handleRetry` is the function `handle_retry`; a long method is
-- cut into functions at its early returns.
--
-- State and calls. A reconciler is a function from the session and the history of calls, newest
-- first, to what `Reconcile` returns and the longer history. An `Env` answers each call from the
-- calls before it, so it may fail at any time and the cluster may change between any two calls. A
-- status update answers with the object as it is in memory afterwards. `KeepsStatus` is what the
-- API server documents of the status subresource: an update that succeeds stores the status as it
-- was sent. The theorems that need it say so. A run of Controller.Runs takes one stored status to
-- the next reading of the session. `after` of System.Store is the session that the API server holds
-- after one run: with the status of the last update that was accepted, the rest as it was. A
-- cluster may change from run to run; a theorem on several runs says in which cluster each takes
-- place.
--
-- Starting. A program of cmd/ is a function from the answers of the libraries' calls to how it ends
-- and the calls that it made. Parsing flags is the package `flag`'s: a command line gives each flag
-- a value from its name and default. The options that the code builds are records with the fields
-- it sets, and its functions on TLS configurations stand in them as functions.
--
-- Deep copies. A pointer is a number, a heap gives the cells below its next free pointer, and a
-- read of a pointer at no such cell is a fault. The objects of Memory are those of Api as they lie
-- in memory. Of the library's own deep copies, which are parameters, `IsDocumented` says that a
-- time is copied to a new cell and that the other copies are equal to what they copy. The
-- reconcilers work on a copy of their own and are modelled on values; `view` of Api.DeepCopy.View
-- is the value that an object stands for.
--
-- Bounds. Loops over containers, statuses, addresses, log chunks and messages are recursion on
-- their lists, with no fuel. `show_nat` recurses on fuel n + 1 for the number n;
-- Prelude.Decimal.Laws has that any fuel above n gives the same text. `RetryCount` and durations
-- are integers of 64 bits, compared after a conversion to 32, with the wrap-around written out.
--
-- Not modelled: the work queue of the manager and the mux of the HTTP server, which are libraries';
-- what the scheme's builder does with the objects that it is given, which is a library's; fairness
-- between goroutines; log output and the options of the logger; conflicts and authentication inside
-- the API server beyond an error answer.
pub mod Prelude
pub mod Api
pub mod Kube
pub mod Cluster
pub mod Updates
pub mod SessionPhases
pub mod Reconcilers
pub mod Controller
pub mod Proxy
pub mod System
pub mod Startup
pub mod Tests
