-- ===== src/Lib.antt =====
-- A model of the core of the Power Manage SDK, the Go module with which an agent on a managed
-- Linux host talks to its control server and carries out what it is told.
--
-- The parts and how they meet. The agent keeps one stream to the server open (client.go): Run
-- sends a hello, receives frames and dispatches them to a handler, a worker hands deliveries to
-- the handler in order, and requests of the agent wait for the response that carries their ID.
-- A delivery may be held back by a maintenance window (maintenance/window.go). What a handler
-- then does on the host goes through a Runner (sys/exec), which screens the environment of each
-- child and escalates privileges, and what it writes or removes from remote sources goes through
-- the guards on paths (sys/fs/protected.go, sys/fs/validate.go, sys/remote/paths.go).
-- What a handler is told about packages is screened by pkg/validate.go, a unit file by
-- sys/service/unitcontent.go. Rules of the host's firewall (sys/firewall), accounts and groups
-- (sys/user) and queries of the logs (sys/log) are commands that a Runner runs, built from fields
-- that are validated first. Secrets travel sealed (crypto).
--
-- Which module models what:
--   Prelude      Go's integers where their sign matters, byte strings with the functions of
--                package strings, slices as lists, (value, error) returns as Result. Actions:
--                code that acts on the host, as a function of the host's state.
--   Maintenance  maintenance/window.go, each function under its name. A moment is a weekday with
--                an hour and a minute. Clock: the HH:MM-HH:MM format. Coverage: the evaluator
--                against the minutes of a week. Validity: Validate. Union: several windows.
--   Client       client.go. State: the Client struct, send. Pending: registerPending,
--                unregisterPending, deliverPending, Close. Heartbeat: applyWelcomeHeartbeat.
--                Delivery: the queue and its worker, runManifestDelivery. Dispatch:
--                dispatchServerMessage. Tasks: the goroutines that it starts, with their
--                semaphores. Requests: GetLuksKey and its kin, as the half before the wait and the
--                half after it. Run: what happens to a client over its runs, as a step relation, with
--                what the agent and StartReceiver do meanwhile. SendLock: the lock that serialises sends. Retry: sendWithRetry.
--   Exec         sys/exec. CappedBuffer: capped_buffer.go. Env: env.go, the validation of exec.go,
--                buildChildEnv. Output: runStreamingWithStdin and awaitStatusOrKill. Runner:
--                runner.go, detect.go. Secret: secret.go, argv.go. Host: the runner as its
--                clients see it.
--   Paths        Clean: filepath.Clean, Join, IsAbs. Protected: protected.go. Resolve:
--                ResolveAndValidatePath. Destination: paths.go and wipe.go of sys/remote.
--   Pkg          pkg/validate.go, with the regular expressions as classes of bytes.
--   Service      UnitContent: sys/service/unitcontent.go. Reading: the lines that systemd reads, as
--                systemd.syntax(7) has them.
--   Crypto       FieldContext: crypto/field_context.go. Aead: aead.go. Seal: seal.go.
--   Firewall     sys/firewall. The file itself: validation, New and Detect of firewall.go. Host: its
--                cmd. Nftables, Firewalld, Ufw: the three backends, each with ApplyRule, RemoveRule
--                and List as actions. Nftables/Script and Listing: the scripts for nft and what it
--                prints. Firewalld/Service: the definition of a service. Ufw/Args and Status: the
--                arguments of ufw and its listing, the regular expression as the ways in which it
--                matches.
--   Users        sys/user. Fields: the validators of user.go. Commands: exec, run, query and
--                shadowPassword. Accounts: Create, Modify, Delete, Lock, Unlock. Queries: Get, Exists,
--                PrimaryGroup, SupplementaryGroups, EnsureHome. Groups: group.go.
--   Remote       Digest: sys/remote/digest.go. Canonical: the text that it hashes.
--   Log          sys/log. Guard: grepguard.go. Groups, Flat: the patterns that it refuses. Sources: log.go, journald.go, syslog.go.
--
-- How state and code correspond. A mutex makes the method that holds it one step; where the code
-- releases it on the way, the method is two functions. A Go map is a list of pairs or a function,
-- a channel is what it holds, a goroutine is what it has still to do, and a run is a sequence of
-- steps in any order that the code allows. A panic is a value; that
-- the dispatcher recovers it stands in each of its arms. A handler is what each call of its methods
-- ends with, and each call stands in the log; what it sends meanwhile are steps of their own. Errors are constructors, without
-- their text. Byte strings hold bytes; case and white space are those of ASCII, so that a path
-- with another Unicode space at an end, which strings.TrimSpace cuts off too, is not covered.
--
-- What is a parameter. The handler, the network, the validator of protovalidate and the source of
-- identifiers (Client), the process's environment, the lookup of programs and what a child does
-- (Exec), the answers of the file system, which may change from one call to the next (Paths), and
-- the parser of URLs (Pkg). AES-GCM, X25519, HKDF and randomness (Crypto); the runner with the host
-- that it acts on, the file manager, the parsers of package net, the decoding of JSON and the
-- compiler of regular expressions (Firewall, Users, Log); the walk of a tree and SHA-256 (Remote).
--
-- Bounds and fuel. Every loop follows a list or a number that it consumes; only the printing of a
-- number in decimal counts rounds, one more than the number, which is enough since each takes a
-- digit off. The
-- queue of deliveries holds 256, a semaphore 2 tokens, a captured stream 1 MiB; numbers are not
-- bounded by a word, since the code counts bytes and lines in 64 bits.
--
-- What is not modelled: TLS and certificates, logging, tickers and timeouts as times (a timeout
-- is an event), deadlines of contexts, the text of errors, the wrappers over package managers,
-- services, networks and disks, passwords and sessions of users, and generated code.
pub mod Prelude
pub mod Maintenance
pub mod Client
pub mod Exec
pub mod Paths
pub mod Pkg
pub mod Crypto
pub mod Firewall
pub mod Log
pub mod Remote
pub mod Service
pub mod Users
