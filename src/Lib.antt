-- ===== src/Lib.antt =====
-- jit-bot: just-in-time access to EKS clusters.
--
-- The program. A user asks for access to a cluster with a JITAccessRequest. The API server passes it
-- to two webhooks (pkg/webhook): one fills in defaults and approvers, one refuses what is malformed.
-- A reconciler (pkg/controller/jitaccess_controller.go) moves an accepted request through its phases
-- and creates a job for it; the job's reconciler calls the access manager
-- (pkg/kubernetes/access.go), which makes an access entry of EKS (pkg/aws). The HTTP server
-- (internal/handlers) keeps clusters and accesses in a store (pkg/store) and the users' roles in a
-- table (pkg/auth), and grants accesses itself. Slack's commands (pkg/slack) come to the server behind
-- a signature check and work on the store; others make and approve JITAccessRequests. The operator
-- (cmd/operator) starts the reconcilers and the webhooks beside a monitor (pkg/monitoring) of metrics
-- and traces; the command serve (cmd/jit-server) starts the HTTP server.
--
-- The files. A definition is named for the Go function that it translates, in snake case.
--   Base             tests, results, lists, Go's strings as lists of bytes, maps, signed numbers
--   Auth             pkg/auth/rbac.go, and the part of NewRouter (internal/handlers/router.go) that
--                    fills the table; Auth/Laws its theorems
--   Models, Store    pkg/models/cluster.go and pkg/store/memory.go; Store/Laws compares the store with
--                    finite maps, Store/Keyed has sequences of operations
--   Aws, Access      pkg/aws/eks.go and sts.go, pkg/kubernetes/access.go; Aws/Aged the removal of
--                    old entries, Aws/Calls the inputs of AWS, Access/Session those of a grant;
--                    Aws/Policies and Access/Revoke hold their theorems
--   Config           internal/config/config.go; Config/Loaded its theorem
--   Cleanup          pkg/kubernetes/cleanup.go; Cleanup/Sweep and Cleanup/Sessions its theorems
--   Slack            Middleware, Commands and K8s are pkg/slack/middleware.go, commands.go and
--                    k8s_handler.go; their children hold the theorems, K8s/Unmet those with the
--                    request reconciler
--   Handlers         Access (with Access/Views), Admin and Router are access.go, admin.go and router.go
--                    of internal/handlers, and Start makes them; Access/Grant, Access/Later,
--                    Router/Rights, Router/Anonymous and Router/Life hold the theorems
--   Controller       Types is pkg/controller/types.go, Kube the API server, Request the request
--                    reconciler with its theorems in Phases, Approvals, Stuck, Progress
--                    and Settled;
--                    Job the job reconciler (pkg/controller/jitjob_controller.go) with its
--                    helpers in Convert and its theorems in Lifecycle, Timed, Leftover, Blocked
--                    and Progress (with Rounds and Secrets); Joint has the rounds of both
--   Webhook          Regex, Duration and Validation are pkg/webhook/validation.go, Mutation is
--                    pkg/webhook/mutation.go; their children hold the theorems, Validation/Rules
--                    describes an admissible request without the checks
--   Observe          Metrics (with Record) is pkg/metrics/metrics.go, Tracing and Spans are
--                    pkg/telemetry/tracing.go, Monitor, Track and Middleware are
--                    pkg/monitoring/monitoring.go, all over the calls of Run; Metrics/Labelled,
--                    Tracing/Accepted, Monitor/Untraced, Monitor/Stopped, Track/Transparent and
--                    Middleware/Status hold the theorems
--   Operator         cmd/operator/main.go and pkg/webhook/server.go; Operator/Finished its theorem
--   Serve            cmd/jit-server/cmd and internal/server/server.go; Serve/Listening its theorems
--   Tests            the theorems on concrete inputs
--
-- How state is modelled. A struct that an operation changes is a record that the operation takes and
-- returns. A method that holds a lock for its whole body is one atomic step. A reconciler works on
-- its own copy of an object and writes it back by a client call: the state is the API server's.
--
-- What is outside the program is a parameter. The API server is an `ApiServer`, EKS an `EksServer`:
-- stores with the laws of reading and writing, met by association lists in Controller/Kube/Memory
-- and Aws/Memory. Each call has a Boolean that says whether the server refuses it. The clock, the
-- printed times, the decoders' results and the order in which Go visits a map are arguments. Of
-- Prometheus and OpenTelemetry the model keeps the calls, in their order, behind the tracer that the
-- process has or has not; a panic keeps the calls made before it and those that are deferred.
--
-- Bounds. A duration is a 64-bit pattern whose sums wrap; the times of the reconcilers are signed
-- numbers of nanoseconds without a bound; the age of a Slack request is wrapped. The functions recurse
-- on their data, so there is no fuel. A sample rate is in thousandths. Case mapping and white
-- space are those of ASCII, and texts are compared byte by byte.
--
-- Not modelled: the log; the choice of a pattern for a path, which is that of the ServeMux; the
-- listeners of the servers, what viper and cobra do with the tables, the scheme, the version and
-- generated code, which are I/O and calls of libraries; and the two summary types of pkg/metrics, which
-- nothing uses.
pub mod Base
pub mod Auth
pub mod Models
pub mod Store
pub mod Aws
pub mod Access
pub mod Cleanup
pub mod Config
pub mod Slack
pub mod Handlers
pub mod Controller
pub mod Webhook
pub mod Observe
pub mod Operator
pub mod Serve
pub mod Tests
