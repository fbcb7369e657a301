-- ===== src/Lib.antt =====
-- Flareway is a Kubernetes operator that reconciles Gateway API and Cloudflare resources. Its
-- reconcilers skip reading a remote object while a freshness gate is open; a drift sweep closes the
-- gate of an object that has changed remotely; the grants of an account say what a namespace may ask
-- for; and a Gateway is programmed once the Envoy proxies on its xDS streams have proved that they
-- hold its snapshot.
--
-- The parts, and the files that model them:
--   Base          numbers, lists and sorts, finite maps, texts and their order, error results,
--                 and Go's int64 durations and time.Sub
--   Freshness     internal/freshness. Policy.antt is types.go and evaluate.go (Policy.Validate, TTL,
--                 Evaluate, EvaluateSweepConfirmed), Grades.antt is grades.go, Latch.antt is latch.go
--                 (Invalidate, Clear, Forget, Remove, MarkVerified, SetBaseline, ConfirmContent, ...).
--                 Evaluation, Expiry and Ordering are about the policy, History and Confirmation about
--                 sequences of calls on the latch.
--   Authz         internal/authz/evaluate.go: Names has HostnameMatches and ZoneMatches, Grants has
--                 Evaluate and the gates of a grant; Covers and Permits say what they decide, and Gates,
--                 OneGrant and Decisions are the proofs.
--   Cloudflared   internal/cloudflared: Origin is config.go, Paths has forwardingPaths, Ingress has
--                 compileConfig, Names, Service and Direct have compileDirectConfig and its checks,
--                 Errors its errors, Compile has Compile, CompileDirect and compileRequest. Order is
--                 about the sort, FirstMatch, Guards, Coverage and PathOrder about compileConfig,
--                 OneService, Refusals and Accepted about compileDirectConfig, Seconds about gatewayOrigin.
--   Controller    internal/controller/freshness_gate.go: evaluateGate, evaluateGateWithHash, clearGate,
--                 recordGateVerification, nextGateStamp and the rest of the gate's helpers, over the
--                 policy and the latch of Freshness; Stamp is persistGateStamp, a patch whose
--                 reply is lost included; Persisted, Patches and Failures are about what it leaves.
--   GatewayApi    internal/gatewayapi: Hostname is hostname.go (ComputeHosts and
--                 WildcardHostnameMatchesHostname), RefGrant is refgrant.go. Wildcards says what a
--                 hostname denotes; Hosts, Intersection, PairListed, Listed and Ascending are about
--                 ComputeHosts. Listeners has the conflicts and the claims of listeners in
--                 translate.go (Claims, Conflicts, Claimants and Served are about them), Matches
--                 compileMatch of rules.go (FirstNamed and Compiled), Precedence
--                 compareCompiledRoutes of translate.go (RouteOrder and RouteFirst). TlsPolicies has
--                 the BackendTLSPolicies of backends.go (PolicyTargets, PolicyOrder and OldestPolicy
--                 are about the winning one), Filters the modifiers of rules.go and
--                 compileBackendFilters, and Backends compileBackendObjectRef (Resolution,
--                 BackendRefs and ClusterNames).
--   Ownership     Key is GetOrCreateKey of internal/ownership, one step for each request to the API
--                 server, a write whose reply is lost included, with calls that run at once as a
--                 list of steps and nothing else that changes the Secret; Ledger and Signed are
--                 ledger.go and ownership.go of internal/cloudflare; Comments is privateOwnerComment
--                 of internal/controller. Converge, Unattended and Ends are about the key, Carried,
--                 Recognized, AccessTags, Texts and Private about the markers.
--   Sweep         internal/sweep: Classify is classify.go with the content hook, Dispatch the
--                 RunTargetOnce, runTarget and handleDriftResults of account_sweeper.go, over the latch of
--                 Freshness, Names the remote names and comments at the end of classify.go, Pacing the
--                 waits of runTargetLoop. Differences, Verdicts, Remotes, Closing and Passes are
--                 about a complete pass.
--   Xds           internal/xds/server/tracker.go, the AckTracker: State has its fields, Snapshots
--                 ExpectSnapshot, OnStreamClosed and Forget, Requests OnRequest and OnResponse, Acked
--                 IsACKed, Details ConvergenceDetails and LastNACK. Runs has sequences of calls in the
--                 order in which they take the tracker's lock.
--
-- State is passed explicitly: an operation takes a record and returns the next one. A mutex is the
-- atomicity of a step, and an interleaving is a list of steps. A nil pointer, a missing entry and an
-- error are `none`. A time is the number of nanoseconds since Go's zero Time, which is 0; a duration
-- is an integer whose operations wrap at 64 bits or saturate as Go's do. A map that the code only reads
-- by key is a function, one that it ranges over an association list; nothing depends on the order of
-- the range. Every loop is over a list or counts its passes, but for two: the digits of a number have
-- one round of fuel more than the number, and reading them back gives the number; the loop that marks
-- the conflicts of listeners has one round for each listener, since a round takes one off the list.
--
-- What the code takes from elsewhere is a parameter: the digest of a version map and that of a
-- desired state (`none` where they fail), the matchers that compare listed content, the label
-- selectors, the lower case of a code point, the calls that other goroutines make while a matcher
-- runs, what the API server answers and what others write to a status meanwhile, the random draws
-- of the sweep's loop and of the ownership key, HMAC, idna and strings.EqualFold, what
-- regexp.Compile, net.ParseCIDR and AppendCertsFromPEM accept, JSON and SHA-256, and which hostnames and paths of an
-- ingress rule match a request. Metrics, logs and the texts of messages are left out, and so are the
-- gRPC server around the tracker, the reconcilers, the Cloudflare clients, the rest of the Gateway
-- API translation, and the listings that the sweep takes.
pub mod Base
pub mod Authz
pub mod Cloudflared
pub mod Controller
pub mod Freshness
pub mod GatewayApi
pub mod Ownership
pub mod Sweep
pub mod Xds
