-- ===== src/Lib.antt =====
-- Verification library for silo-pkg (module github.com/pgsty/silo-pkg/v3): the authorisation core, the
-- prefix tree, the pool of workers and the expansion of ellipses.
--
-- The program's parts. Package wildcard (wildcard/match.go) matches names against patterns with '*'
-- and '?'. Package policy/condition names the keys of a request's conditions and evaluates conditions.
-- Package policy reads policies: an action set and a resource set use wildcard to test a request's
-- action and resource; a statement combines them with its conditions and its effect; a policy's
-- decision combines its statements; the entry points IsAllowedSerial and IsAllowedPar combine the
-- decisions of several policies, the latter with goroutines. Package trie keeps keys by their runes
-- and finds those with a prefix. Package ellipses expands patterns such as {1...64} and {a,b,c} in an
-- argument. Package workers bounds how many jobs run at once. The last three stand alone.
--
-- Which file models which part.
--   Prelude/*             what all parts use: Bool tests, lists, outcomes that may panic, byte strings,
--                         sets of Go (the keys of a map in the order of a walk), path.Clean, Go's int
--   Wildcard/Pattern      the specification of patterns: Token, Matches
--   Wildcard/Loop         wildcard/match.go: Match, MatchSimple, deepMatchRune, matchFixedSuffix, Has,
--                         MatchAsPatternPrefix
--   Wildcard/Suffixes, Fixed, Probe, Search, Correct, Prefix
--                         the proofs about them
--   Condition/Names/*     policy/condition/keyname.go: the constants and the lists of keys
--   Condition/Values      policy/condition/keyname.go: KeyName.Name; lookups in map[string][]string
--   Condition/Keys        policy/condition/key.go, value.go: Key, KeySet, getValuesByKey
--   Condition/Functions   policy/condition/func.go: Function, Functions
--   Condition/Name        policy/condition/name.go
--   Condition/Value       policy/condition/value.go, valueset.go
--   Condition/StringSets, Library
--                         the operations of packages outside the repository: set.StringSet, and the
--                         standard library's
--   Condition/Strings, StringValues
--                         policy/condition/stringfunc.go: evaluation; constructors
--   Condition/Numeric, Flags, Dates, Addresses
--                         policy/condition/numericfunc.go; boolfunc.go, nullfunc.go; datefunc.go;
--                         ipaddrfunc.go
--   Condition/Public      the exported constructors of those files
--   Condition/Concrete, Json
--                         policy/condition/func.go: the types behind Function, conditionFuncMap, and the
--                         maps of MarshalJSON and UnmarshalJSON
--   Condition/NonEmpty, Images, StringMeaning, NumericLaws, TextForms, Built, Rebuild, JsonOrder,
--   JsonRoundTrip, Evaluation
--                         the proofs about them
--   Condition/ListSets    lists with the operations of set.StringSet
--   Trie/Runes, Tree      trie/trie.go
--   Trie/Lookup, Walks, Laws, Size
--                         the proofs about it
--   Workers/Pool          workers/workers.go: New, Take, Give, Wait, as a relation of steps
--   Workers/Bounded       the proof about it
--   Ellipses/Text         what ellipses calls of packages strings, strconv and fmt
--   Ellipses/Range, Patterns, Lists
--                         ellipses/ellipses.go; ellipses/list.go
--   Ellipses/RangeTexts, RangeForm, RangeLaws, Expansion, Search
--                         the proofs about them
--   Policy/Names/*        policy/action.go, admin-action.go, kms-action.go, sts-action.go,
--                         table-action.go, vectors-action.go: the constants and tables; actionset.go:
--                         implicitActions
--   Policy/Action         the tests IsValid, Match, HasResource, IsObjectAction of those files
--   Policy/Effect         policy/effect.go
--   Policy/ActionSet      policy/actionset.go
--   Policy/Resource, ResourceSet
--                         policy/resource.go, policy/resourceset.go
--   Policy/Statement      policy/statement.go: IsAllowedPtr and what it calls
--   Policy/Decide         policy/policy.go: Decide, IsAllowed, IsAllowedSerial, updateActionIndex
--   Policy/KeyMaps        policy/action.go, admin-action.go, sts-action.go, table-action.go,
--                         vectors-action.go: the condition keys of each action
--   Policy/ActionTypes    policy/statement.go: validateActionTypes
--   Policy/Validate       policy/statement.go: isValid, isValidStrict; policy/policy.go: isValid,
--                         ValidateStrict
--   Policy/Duplicates     policy/statement.go: Equals; policy/policy.go: Equals,
--                         dropDuplicateStatementsOriginal, with the proofs about them
--   Policy/BucketPolicy   policy/bucket-policy.go, bucket-policy-statement.go, principal.go
--   Policy/Defaults       policy/constants.go: DefaultPolicies; policy/resource.go: NewResource
--   Policy/Parallel       policy/policy.go: IsAllowedPar, as a relation of steps
--   Policy/Scan, Hardening, Withheld, Variables, ParseLoop, Parse, Decisions, Indexing, SetLaws,
--   Namespaces, Validity, BucketGrants, DefaultGrants,
--   Verdicts, Schedule, Liveness, ParallelRuns
--                         the proofs, named for what they are about
--   Wildcard/Tests, Wildcard/Examples, Policy/Samples, Policy/Examples, Policy/RunExamples,
--   Policy/ValidExamples, Policy/BucketExamples, Policy/DefaultExamples, Condition/StringExamples,
--   Condition/ValueExamples,
--   Trie/Examples, Ellipses/Examples, Workers/Examples
--                         runs, and the theorems at concrete inputs
--
-- How the state corresponds. A Go string is the list of its bytes. A map[K]struct{} is the list of its
-- keys in the order in which a loop meets them. The fields of Statement, Policy and Args have their
-- source's names; Args lacks AccountName, Groups, OriginalAction and Claims, which no decision reads.
-- The atomic flag legacyBucketResourceMatch is an argument, legacy. A panic, from an index that is out
-- of range, is the value panic of Outcome, and stops what follows it as it does in Go. A condition
-- function is a record of the methods of the interface Function. utf8.ValidString is a parameter of
-- the validators; strings.ToLower, base64, times, addresses and the check of bucket
-- names are the fields of Library, and set.StringSet is the record StringSets with its laws. The
-- types that implement Function are the constructors of Concrete. The map of a trie node's children is a list of its entries; no node is
-- shared, so an insertion returns the new tree. The state of a pool of workers counts the jobs that
-- are in Take, run and are in Give. The regular expressions of ellipses are the function that gives
-- the three groups of a match. A principal is the list that ToSlice makes of its set of strings. In
-- IsAllowedPar the two channels, the goroutines to start, the workers that wait and the jobs in work,
-- the counter of the WaitGroup, the context and the collecting loop are the fields of Par, and a
-- constructor of Step is one action of a goroutine, in any order: a worker is started, takes a job,
-- sends a result if the channel has room, leaves when the channel of jobs is empty and closed, or
-- stops with its job when the context is cancelled; the function collects a result, which cancels the
-- context if it is a denial, ends its loop, or returns behind wg.Wait. The runs start when all jobs
-- are in their channel, which has room for just these, and it is closed. runtime.GOMAXPROCS is an
-- argument, procs. A Go map is the list of its entries in some order; where a loop meets them in any
-- order, the theorem is about every rearrangement of the list.
--
-- Fuel. The loop of deepMatchRune runs on fuel that its caller computes from the lengths of the
-- pattern and the name; the theorems on Match and MatchSimple state that the loop ends within it. The
-- loop that replaces variables runs on the length of the text, of which each round takes at least one
-- byte; more fuel changes nothing. The loop over a range of ellipses runs on fuel: one round more than
-- the range has numbers is enough below 2^64 - 1, and no fuel is enough for a range up to it. The
-- search for patterns runs on the length of the argument, since the first group of a match is shorter
-- than its text. All other loops are structural.
--
-- Not modelled. JSON beyond the maps of condition functions, and the texts of errors (a validator's
-- nil is true, an error is false, none or error), the texts of condition functions, the hashes by
-- which duplicate statements of a long policy are found, other operations on sets of strings of a
-- third-party package, and the remaining packages, which are input and output, tables that are
-- generated, or utilities of no other part.
pub mod Prelude
pub mod Trie
pub mod Workers
pub mod Ellipses
pub mod Wildcard
pub mod Condition
pub mod Policy
