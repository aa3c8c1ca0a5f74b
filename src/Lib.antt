-- ===== src/Lib.antt =====
-- The Exasol Personal launcher: a model of the code that guards the directory of a deployment and
-- moves the deployment through its life, with proofs.
--
-- The launcher keeps a deployment in a directory. A state file in it says which workflow state the
-- deployment is in, and marker files in it are a lock that separate processes share. Each lifecycle
-- command takes the lock exclusively, reads the state file, asks whether its state permits the
-- command, writes that an operation is in progress, calls a backend, and writes what came of it.
-- The status takes the lock as one of several readers.
--
-- * Mutex models internal/directorymutex/directorymutex.go. Mutex.Marker has the names of the
--   marker files (parseMarker, sharedMarkerName), Mutex.Directory the directory and findMarker,
--   Mutex.Attempt one attempt to take or give back the lock (tryAcquire, tryRelease), ClearLock and
--   Status, Mutex.Context the contexts of Go, Mutex.Locking the loops acquire and release and
--   withLock. Mutex.Spec is the abstract lock: free, held by one writer, or held by n readers.
-- * Workflow models internal/config/exasol_launcher_state.go (Workflow.State, Workflow.World) and
--   the part of internal/deploy that works on the state: status.go and locking.go
--   (Workflow.Status), the permissions of deploymentControl.go and deploy.go (Workflow.Permits),
--   what a failure records (Workflow.Failure), and start, stop, deploy and destroy
--   (Workflow.Commands). Workflow.Diagram is the diagram of states that start, stop and
--   deploy move along.
-- * Ports models the allocator of host ports of internal/deploy/local_ports.go: Ports has its
--   functions, Ports.Search and Ports.Choice the search for a port, Ports.Distinct, Ports.Serves
--   and Ports.Resolve the reservations and what resolve promises.
-- * Statement models internal/connect/types/statement.go: the type of an SQL statement by its
--   leading keywords. Statement.Words has the words of each type, Statement.Comments the end of the
--   loop over comments, Statement.Lines and Statement.Blocks the two kinds of comments,
--   Statement.Written how a statement of a type is written. The tables of Unicode are a parameter.
-- * Compatibility models internal/compatibility and the version marker of
--   internal/config/deployment_version_marker.go: whether a command of this launcher may work on a
--   deployment directory. Compatibility.Admissible describes the directories that it may work on.
-- * Configuration models the options of a deployment of internal/deploy/configuration.go and
--   configure.go: Configuration has the operations on them, Configuration.Names the two spellings
--   of a name, Configuration.Selection which names may be read and reset, Configuration.Patch what
--   a patch leaves for the backends, Configuration.Permission when the options may be changed,
--   which refers to the permissions of Workflow. The type of a value is a parameter.
-- * Signals models internal/util/signal_handler.go: Signals has the sections of code that run under
--   the mutex, Signals.System the interleavings of the worker that handles signals, of a caller of
--   EnsureOnInterrupt and of all others, Signals.Counting and Signals.Sections where the handler of
--   that caller is, Signals.Final what the worker runs on each signal.
-- * Polling models PollWithBackoff of internal/deploy/shared.go with its pauses and its deadline.
-- * LocalParquet models internal/connect/types/local_parquet.go: LocalParquet has the tokenizer,
--   LocalParquet.Parser the functions on tokens, LocalParquet.Turns and LocalParquet.Rounds the
--   loop, LocalParquet.Quoting, LocalParquet.Printing and LocalParquet.Statement what is read back,
--   LocalParquet.Recognised and LocalParquet.Accepts which tokens are taken for a table.
-- * Cleanup models tools/cleanup/pkg/cleanup: Cleanup has the filters and provider.go, Cleanup.Plan
--   and Cleanup.Index the plan and the search of orchestration.go. The plan keeps pointers to the
--   entries of a slice that it appends to: Cleanup.Slices is the memory of slices, in which the
--   capacity that the runtime gives to a slice that is full is a parameter. Cleanup.Scope,
--   Cleanup.Apart and Cleanup.Lost are about the entries, Cleanup.Locations and Cleanup.Providers
--   about the functions they are named for.
-- * Sidecar models internal/sidecar: Sidecar.Expand the references in texts (resolve.go), with
--   Sidecar.Template for the texts that are printed from parts, Sidecar.Document the validation of
--   a definition (types.go, probe.go, validate.go), with Sidecar.Accepted and Sidecar.Definitions
--   for what is accepted, Sidecar.Defaults the defaults of a container (types.go, probe.go), with
--   Sidecar.DefaultsValid for their validation and Sidecar.Images for the references of images,
--   Sidecar.Resolve the container with its secrets
--   (resolve.go), with Sidecar.Clean, Sidecar.Variables, Sidecar.Provided and Sidecar.Ready, and
--   Sidecar.Catalog the resolution of a name in catalogs (catalog.go).
-- * Errors has the error values and errors.Is, Common what the parts share, Tests the runs and the
--   theorems at concrete inputs.
--
-- A directory is a list of entries and two faults, of listing and of writing. A step of the lock is
-- atomic from findMarker to the change of the directory, except where a theorem says otherwise;
-- what other processes do happens while this one sleeps, and is a function of the time and the
-- directory. Times are milliseconds, those of
-- Polling nanoseconds. The loops run on fuel, one unit for each 200 ms up to the
-- deadline and two more; the theorems on the ends of acquire and release show that this is enough.
-- A count of readers is a Go int of 64 bits, which wraps around. The loop over SQL comments has
-- fuel for one round more than there are characters, which Statement.Comments.strip-strip_step
-- shows to be enough. Polling has fuel for one round for each second up to the end of its context,
-- the tokenizer for one turn for each rune, the expansion of references for one turn for each byte;
-- theorems show that these are enough. The pauses of polling are Go ints that are not negative;
-- their doubling wraps around, and so does a pause as a time.Duration of 64 bits. The ids of handlers
-- of signals are Go ints that wrap around, and the interleavings are those in which none does.
--
-- The lifecycle commands get the answers of everything else from an environment: manifests,
-- backend, runtime, database, sidecars. Writes of the state file go as a list says, and may fail
-- before or after the file was truncated. Texts for the user are constructors that name them.
--
-- What a cloud provider answers is a value of its collector, the same at each call; its times are
-- nanoseconds. The parsers of image references and of addresses are parameters. What the
-- documentation of netip says of addresses is the hypothesis IsNetip.
--
-- Where the lifecycle commands or the lock register a handler for signals, their models leave it
-- out: Signals has the dispatcher by itself.
--
-- Not modelled: the encoding of the state file as JSON, the backends (tofu, local runtimes),
-- presets, remote execution, the SQL shell and driver, script language containers, the processes of
-- sidecars, the cloud providers of the clean-up, the command line, and the build tools.
pub mod Common
pub mod Errors
pub mod Mutex
pub mod Workflow
pub mod Statement
pub mod LocalParquet
pub mod Polling
pub mod Signals
pub mod Ports
pub mod Compatibility
pub mod Configuration
pub mod Sidecar
pub mod Cleanup
pub mod Tests
