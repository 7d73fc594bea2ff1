-- ===== src/Lib.antt =====
-- go-mod-edge-utils
--
-- A Go module of utilities for edge services. This library models the parts that keep state or
-- decide something, and proves what they promise to their callers.
--
-- Parts and files
--   Prelude        tests on numbers and strings, lists measured by native numbers, Go maps (Dict) and
--                  switch statements. A Go map is an association list; its order stands for the order
--                  in which range happens to visit it.
--   Errors         pkg/errors: error values with the chain that Unwrap walks (base.go, types.go), in
--                  Http the tables of http.go. Maps of details are shared by address. Chain, Wrapping
--                  and Details have the theorems.
--   ReExec         pkg/re_exec/queue.go: the memory queue and its retry loop. Clients, timer, loop and
--                  retry function are events of one state machine, so a list of events is a schedule.
--                  Loop, Capacity and Rounds have the theorems.
--   Common         pkg/common/atomic.go, which the broadcaster uses for the hash.
--   Sse            pkg/sse: broadcaster.go; Sse/Polling for polling.go and options.go, Sse/Manager for
--                  manager.go and the opening of handler.go. A channel is all that was sent to it and
--                  how many of these were received. Broadcasters stand in a heap, and a topic refers
--                  to one by address. The queue makes its errors with Errors, the polling goroutine
--                  its responses.
--   Di             pkg/di/container.go: services that are constructed when first asked for. A
--                  constructor is a function of Get and nothing else, so it is a tree of questions.
--   Secret         pkg/bootstrap/secret: secure.go in Client, Cache and Secure over the interface
--                  SecretClient of pkg/secrets/client, its file of secrets in Seeding, insecure.go in
--                  Insecure, secret.go in Creation. Retry, Coherence, Callbacks, Stale, Seeding and
--                  Insecure/Lookups have the theorems.
--   Openbao        pkg/secrets/openbao/secrets.go: Tokens for SetAuthToken and the goroutines that
--                  renew, Secrets for the secrets over the replies of the store, Identity for the
--                  other requests with the URLs of pkg/secrets/types/config.go. A context is a
--                  number, and cancelled contexts are listed. Renewal, Replacement,
--                  Secrets/Filtering and Identity/Confirmed have the theorems.
--   Rest           pkg/rest/utils.go: Query and Query/Times for the parameters of a query, Errors and
--                  Responses for error responses, Requests for the requests of other services;
--                  http.go in Sender. A response is what was written to it, and a sent request is
--                  listed. Query/Ranges, Responses/Committed, Requests/Created and Sender/Safety have
--                  the theorems.
--   Environment    pkg/bootstrap/environment/variables.go: Values for the values of a configuration map,
--                  Paths for reading and writing by a path, Convert for the conversion of texts,
--                  Overrides for NewVariables and OverrideConfigMapValues, Startup for the settings that
--                  are needed first. Overrides and Bounds have the theorems, Settings, Writes and Access
--                  the lemmas on paths.
--   Log            pkg/log/log.go, and in Audit the package auditlog: Writer has its configuration. A
--                  writer is all that was written to it. Written and Audit/Entries have the theorems.
--   Auth           Auth/Jwt for pkg/auth/jwt: Creation and Cookies for the creation of tokens and for
--                  the cookies. Validation and RoundTrip have the theorems.
--   Prts           pkg/prts/bacnet.go: the tables of BACnet and their lookups. Ranges and Distinct have
--                  the theorems.
--
-- Correspondence
--   A method is a function of the record of its struct, named as in Go in lower case with underscores
--   (CreateOrGetBroadcaster is create_or_get_broadcaster). An interface to code that is elsewhere is a
--   parameter: json.Marshal with SHA-256 (digest), time.ParseDuration, strconv.Atoi, the
--   JSON of the file of secrets, the retry function, the polling function, the secret client, the
--   token loader, the replies of the secret store, strings.ToUpper, strconv.ParseFloat, fmt.Sprintf
--   with arguments, the library of JSON web tokens, net/http, net/url and
--   echo, and the file system. A panic is none. What a lock
--   makes atomic is one step. Get of a container, Publish, GetSecret of the secure provider and
--   CreateOrGetBroadcaster take several locks or a shared one; each is one function, for a call with
--   which no other interleaves, and Sse/Manager/Races has the steps of two calls.
--
-- Bounds and fuel
--   Di.get takes a depth, since a constructor may ask for its own service; with ranked services any
--   depth above the rank is enough. Decimal printing takes as many rounds as the number plus one. The
--   statuses and lengths are natural numbers; the limit of the queue is an integer, as it may be
--   negative in the code.
--
-- Not modelled
--   The lines that the other parts log, metrics, and time beyond the readings of a clock that are arguments; the network side of
--   the handler; the parts of pkg/bootstrap, pkg/auth, pkg/log and pkg/secrets that are
--   not named above.
pub mod Prelude
pub mod Errors
pub mod ReExec
pub mod Common
pub mod Sse
pub mod Di
pub mod Secret
pub mod Openbao
pub mod Rest
pub mod Prts
pub mod Environment
pub mod Log
pub mod Auth
