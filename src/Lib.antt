-- ===== src/Lib.antt =====
-- Noctaxris-GCP is a local laboratory of Google Cloud: HTTP and gRPC services (internal/services,
-- internal/server) over one SQL store (internal/store), with the shared parts of a security kernel
-- (internal/kernel). A request is authenticated, its principal and permission are put to the IAM
-- evaluator, and the handler then reads and writes tables of the store. This library models the
-- parts that carry most rules: the evaluator, which every service asks; the gate of outgoing HTTP;
-- and of the store the Pub/Sub, Secret Manager and Cloud KMS tables, the custom roles, the resource
-- hierarchy with its organization policies, and the buckets and objects of Cloud Storage with their
-- paths on disk. The hierarchy is the parent store that the evaluator walks
-- (Store/Hierarchy/Parents gives it the evaluator's interface).
--
-- Base: what the components share. Base/Tests has the Boolean tests on numbers, Base/Lists the
-- lists over native numbers, Base/Results Go's `(T, error)` with the loops that return at the first
-- error, Base/Texts and Base/Ascii the functions of Go's `strings` that are used, Base/Tables the
-- SQL statements on a table as a list of rows, Base/Keys the uniqueness of a key through these
-- statements, and Base/Maps a table as a map from its keys.
--
-- Authz: internal/kernel/authz (iam.go, predefined_roles.go), and `EvalRequestTime` of
-- internal/kernel/celutil/celutil.go. The evaluator keeps no state. Authz/Policy has its documents
-- and interfaces; Authz/Condition `conditionAllows`; Authz/Members `memberIn`, `exactMemberIn` and
-- `memberIdentity`; Authz/Chain `resourcePolicyChain`, `policyChain` and `isCRMHierarchyResource`;
-- Authz/Roles one test per grant function and one table per run of switch cases; Authz/Grants
-- `roleGrants` and `predefinedServiceRoleGrants`; Authz/Evaluate `Evaluate`, `EvaluateAny`,
-- `EvaluateAllUsers`, `EvaluateAllUsersAny`, `AllowPrincipalOrAllUsers`, `TestIamPermissions` and
-- `TestIamPermissionsAny`, each under its name in lower case. Authz/Membership, Conditions,
-- Ancestry, Allowed, Decision, Requests, Inheritance and Minting hold proofs. Two calls with the
-- same loop but another member test (`evaluateOnResource`, `evaluateExactMemberOnResource`) share
-- `grants_on_resource`.
--
-- Egress: internal/kernel/httpegress/egress.go. Egress/Addresses has `net.IP` with its tests and
-- `rejectUnsafeIP`; Egress/Validate `Validate` and the tests that it asks; Egress/Dial
-- `PinnedDialContext`, as the list of the connections that it tries. Egress/Public and
-- Egress/Safety hold proofs.
--
-- Store: internal/store/pubsub.go, with the tables of internal/store/schema.go. Store/Stamps has
-- the texts of times; Store/PubSub/Types the rows and the database; Filter, Topics, Subscriptions,
-- Publish, Pull, Leases and Snapshots one function per method of `Store`, under its name in snake
-- case, which takes the database and returns it; Calls and Steps the methods that write as one
-- type, and the states that they lead to. The other modules of Store/PubSub hold proofs. Store/Seal
-- has `Seal` and `Unseal` of internal/store/seal.go; Store/Numerals `strconv.Itoa` and SQLite's
-- CAST; Store/Secrets/Types, Names, Catalog and Versions the tables and methods of
-- internal/store/secrets.go, under their names in snake case, and Store/Secrets/History the calls
-- that write; the other modules of Store/Secrets hold proofs. Store/Kms/Types and Keys have the
-- tables and methods of internal/store/kms.go, and Store/Kms/Vault what they promise: three maps
-- from names. Store/Hierarchy/Types, Organizations, Folders, Search and Parents have the Cloud
-- Resource Manager part of internal/store/appengine_crm.go; Specs and Policies
-- internal/store/orgpolicy.go; Enforcement, Inherited and Normal hold proofs.
-- Store/CustomRoles/Types and Roles have the table and methods of internal/store/iam_roles.go, with
-- the role store that the evaluator reads; Granted, Created and Revoked hold proofs.
-- Store/Paths/Filepath has Go's path/filepath on Unix, by segments; Buckets the functions of
-- internal/store/pathsafe.go; Segments and Under hold proofs. Store/Gcs/Types, Buckets, Lookup,
-- Objects, Metadata and Calls have the buckets, retention policies and objects of
-- internal/store/gcs.go, with the files of the bytes as a map from their paths (Metadata has the
-- patching, copying and composing of objects, and Buckets the write to a bucket's row that
-- internal/store/gcs_notifications.go makes); Newest, Revised, Held, Kept, Policies, Locked,
-- Wrapped and Blobs hold proofs. The modules Lab and Tests are concrete runs.
--
-- Bounds. The evaluator's walk up the resource hierarchy and that of
-- `IsOrgPolicyConstraintEnforced` are on the 32 rounds that the code allows. `itoa` runs on one
-- round more than the number, of which each divides by ten, and the text that it makes is read back
-- as the number. Every other loop runs over a list or a text. `maxMessages * 4`, the nanoseconds of
-- a retention period and those of the deadline of a lease (`lease_end`) wrap at 64 bits; times are
-- counted in nanoseconds from the start of the year 1, and a deadline before it, which no clock
-- after the year 293 leads to, is taken as its start; the counters of generations and changes of
-- Cloud Storage are taken not to reach 2^63.
--
-- What is taken for granted. The documents and stores that the evaluator reads, `json.Unmarshal`,
-- `cel-go` and the clock are parameters, arbitrary functions. In Pub/Sub the SQL engine does not
-- fail, and each call runs alone and reads the clock once; `int` arguments are not negative; maps
-- that are kept as JSON are kept as maps, in the order of their insertion, and the attributes of a
-- message always decode; identifiers (`uuid.NewString`) are a sequence, and where a theorem needs
-- that they do not repeat it says so; a failed publication draws no identifiers. The cipher of the
-- seal is a parameter, of which theorems on payloads ask that it opens what it sealed, and the
-- nonce that a call draws is an argument; `json.Marshal` of topics is a parameter. SQL's order of
-- rows with equal keys is that of their insertion, and a look-up that several rows fit finds the
-- first of them. In Cloud KMS and the hierarchy the texts of times are stored and never read, so
-- the text of the current time is an argument, as is the identifier that `uuid.NewString` draws;
-- encoding/json is a parameter of the policy specifications, whose objects are maps, and of the
-- permissions of custom roles, where the theorem on creation asks that a list of texts is read back
-- from what was written for it and that its text is not blank. In the egress gate `url.Parse`, the
-- resolver, `net.ParseIP`, `net.SplitHostPort` and the connections are parameters, and the two
-- environment variables arguments. `os.Getwd` is an argument, of which the theorem on paths asks
-- that it is a rooted path. In Cloud Storage the file system does not fail, periods are not
-- negative, as the handler sees to, and checksums and the texts of times are parameters; that a
-- time is read from the text of a row is a hypothesis on this row. Letters have their ASCII case;
-- Go's folding also takes the Kelvin sign for a k and the long s for an s.
--
-- Not modelled: the rotation of secrets (`RotateSecretTheatre`), which parses times and floating
-- point numbers; the delivery to Eventarc that a publication starts in the background, which
-- touches other tables; concurrent calls; the HTTP client of the egress gate, which only sets a
-- timeout and refuses redirects; of Cloud Storage the listing of objects, the rows of upload
-- sessions, notifications and signed links, and `SetObjectCreatedAt` as a call (it is modelled, but
-- only tests use it); the directories that `mkdirGCSBucket` makes; the App Engine tables;
-- `EvalAttributeMapping` and `EvalAttributeCondition` of celutil; the other tables of
-- internal/store, the handlers of internal/services, authentication, and the server, which are wide
-- and mostly translate between requests and rows.
mod Base
pub mod Authz
pub mod Egress
pub mod Store
