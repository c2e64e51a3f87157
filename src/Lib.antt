-- ===== src/Lib.antt =====
-- The Universal Agent Protocol gateway, modelled and verified.
--
-- The gateway stands between MCP clients and many upstream MCP servers. A client's session
-- (mcp-server) asks for tools, prompts and resources under gateway names (federation); a call has to
-- pass the policy engine and the argument validator, and reaches its upstream with an access token
-- that the token manager (oauth) keeps fresh. The token manager keeps connections in the store
-- (storage), takes its turn at a lock for each connection, and uses the credential vault and the
-- circuit breaker (security). Rate limits and address rules (security) guard the edges. Upstream
-- events arrive through the event stream reader (mcp-client).
--
-- Files and what they model:
--   Base            JavaScript strings as lists of UTF-16 units, decimal numerals, Boolean tests
--   Core            packages/core/src: errors.ts (GatewayError, toJsonRpcCode), json-rpc.ts
--                   (isJsonRpcRequest and its kin), json.ts (values), domain.ts (enumerations)
--   Security        packages/security/src: Breaker is CircuitBreaker of locks.ts, RateLimit is
--                   RateLimiter of rate-limit.ts, Vault is CredentialVault of vault.ts, IpRules is
--                   classifyIpv4 and classifyIpv6 of ip-rules.ts
--   Federation      packages/federation/src: JsonSchema is validateAgainstSchema, Policy is
--                   PolicyEngine, Naming is naming.ts (Naming/Results: namespaceResultResources),
--                   ToolClassifier is classifyTool, Pagination is paginate
--                   Federation/Handler is GatewayMcpHandler of gateway-handler.ts: Handler its state,
--                   routing and lists, Calls callTool and confirm with the audit trail of audit.ts,
--                   Requests onRequest and its other methods, Incoming what upstreams send
--                   Federation/Discovery is syncCatalogue of connection-service.ts
--   Storage         packages/storage/src: Table is Table of table.ts, Connections is the repositories
--                   of connections and transactions in sql-store.ts, Catalogue those of tools,
--                   resources and prompts, LeaseLock is SqlLeaseLock
--   OAuth           packages/oauth/src: TokenFailure is classifyTokenFailure of protocol-error.ts,
--                   TokenManager and TokenManager/Refresh are getValidAccessToken of token-manager.ts
--                   with all that it calls, Exchange is exchangeCode with its checks, Revocation is
--                   revokeConnection and requireIncrementalAuthorization, WwwAuthenticate and
--                   InsufficientScope are the files www-authenticate.ts and insufficient-scope.ts
--   McpClient       packages/mcp-client/src/sse.ts: Sse is readSseEvents
--   McpServer       packages/mcp-server/src/session.ts: Session is DownstreamSession
-- In each package, Examples holds runs on concrete inputs, and the modules below a component hold
-- its proofs.
--
-- How state is modelled. An object is a record, and a method that changes it is a function to the
-- new record and the result. A method of the token manager is a function of its state that keeps
-- what was stored when it raises an error. Awaiting the token endpoint lets other replicas act: each
-- answer carries the time it took and what happened to the connections meanwhile, and a turn at the
-- lock carries the same of the holders before. A database table is the list of its rows; one
-- statement is atomic. A clock is an argument.
--
-- A request of the gateway handler is a function of the gateway's state and of what the other parties
-- do: whether the upstream session opens, what the upstream and the client answer, and what happens to
-- the connections meanwhile. The replicas at the lease lock, and the announcements and ends of
-- rediscoveries, are step relations, and their theorems hold in every state that can be reached.
--
-- Bounds and fuel. Numbers are natural numbers; times are milliseconds. The rate limiter counts
-- token-milliseconds, so that the refill is a whole number. The loop of gatewayToolName, which has no
-- bound in the code, runs on fuel, two rounds more than there are names taken: so many different
-- candidates cannot all be taken. A client that follows the cursors of paginate has fuel for one page
-- more than there are items, since a page that is not the last one holds an item. The matches of the
-- challenge pattern run on fuel, one round for each character of the header, since a match takes one.
-- The refresh loop recurses on the retries left, dedupeAlias on its 998 rounds; every other loop
-- recurses on its list.
--
-- Parameters, for code outside the repository: the hash (`digest`), the byte length of a serialised
-- value (`size`), regular expressions (`compiles`), inherited property names (`inherited`), base64url
-- (`encode` and `decode`), the decoding of a stream's bytes to text (`decode`), the state of a network
-- stream (`is_closed`), `JSON.stringify` (`stringify`), the text of a number (`number_text`), the
-- token endpoint's answers and the answers of upstreams. Of parts of the repository that are not
-- modelled, the vault takes the envelope encryption, the token manager its turn at the lock,
-- `exchangeCode` the comparison of issuers (`same_issuer`), what an issuer has published
-- (`requires_iss`) and the replacement of a rejected client (`replace_client`), and `syncCatalogue`
-- fresh ids (`new_id`), the hash of a tool's schemas (`schema_hash`) and the text of an error code
-- (`code_text`).
--
-- Not modelled: floating point rounding, which matters only where a bucket holds about one token,
-- error messages, metrics and logs, DPoP keys, the expansion of IPv6 text, the lock in the process,
-- the start of the authorization code flow, upstream sessions and how they repeat a message when they
-- have run out, the connection service but for syncCatalogue, HTTP routes, network transports,
-- discovery, registration, database drivers, command line programs and test harnesses.
pub mod Base
pub mod Core
pub mod Security
pub mod Federation
pub mod Storage
pub mod OAuth
pub mod McpClient
pub mod McpServer
