-- ===== src/Lib.antt =====
-- pomerium-cli: the desktop services, the tunnels and the credentials of the client.
--
-- A desktop application talks to two gRPC services (api/): one keeps records of connections, by id
-- and by tag, in memory and in a store; the other starts and stops a local listener for a record.
-- A listener is handed to a tunnel (tunnel/), which forwards its connections to a Pomerium proxy,
-- with a JWT from a cache (jwt/) or, when the proxy asks for one, from a login. Client
-- certificates come from the record or from the store of the operating system (certstore/), and
-- the services show what is in them (proto/cert_info.go). A tunnel speaks HTTP/1, 2 or 3 to the
-- proxy; one over UDP has a session for each address that sends to its socket. The login is the
-- authentication client's (authclient/), which the portal (internal/portal/), a list of the proxy's
-- routes, uses too, as do the commands (cmd/pomerium-cli/).
--
-- Which file models what, each with the names of the source in this language's spelling:
--   Base          tests, Go maps with string keys, `(value, error)`, lists of strings
--   Net           what is used of Go's strings, net and net/url; Net/Split has their laws
--   Proto         messages of proto/api.proto (Records) and proto/cert_info.go (Bits, Certs)
--   Api/Config    api/config.go, with the invariant of the tag index (Index) and the theorems on each
--                 operation (Delete, Clear, Queries)
--   Api/Persist   load, save, import and export of api/config.go and api/import_export.go
--   Api/FileProvider  api/file_provider.go
--   Api/Tunnels   newTunnel of api/tunnel.go and getTLSConfig of api/server.go
--   Api/Proxy     getProxy of api/tunnel.go
--   Api/Accept    tunnelAcceptLoop and tunnelEvents of api/tunnel.go
--   Api/Listener  api/listener.go, with the invariant of the contexts (Live)
--   Api/Connect   Update of api/listener_server.go, with its turns as a step relation (Step)
--   Api/Events    the goroutine of api/events.go as a step relation; Safe, by way of Closing, Leaving and
--                 Broadcast, and Delivery are about its channels
--   Api/CertInfo  api/cert_info.go; Cached compares it with the parser alone
--   Api/Service   the handlers of api/config_server.go and GetStatus of api/listener_server.go
--   Jwt           jwt/jwtcache.go: the interface and its laws, the cache in memory and in files
--   Certstore     certstore/certstore.go
--   Tunnel        tunnel/urls.go (Urls), tunnel/tunnel.go (Errors, Run, Listening),
--                 tunnel/config.go (Config), tunnel/tunnel_tcp.go (Pick) and
--                 tunnel/tunnel_fallback.go (Fallback)
--   Tunnel/Http   tunnel/tunnel_http1.go, tunnel_http2.go and tunnel_http3.go: the requests
--                 (Requests), the five methods (Tunnelers), what they say (Sessions) and what they
--                 close (Resources), deBuffer (Buffers), the two behind the fallback (Deployed), and the
--                 tokens of a session's requests (Tokens)
--   Tunnel/Udp    tunnel/tunnel_udp.go: datagrams, the turns of the session manager (Manager), its
--                 invariant (Table, Turns, Handlers, Sessions), what becomes of a datagram (Order, Received,
--                 Dropped, Delivery, Blocked), how it goes on and ends (Progress), and the loops that
--                 pass datagrams on (Streams)
--   Authclient    authclient/ and internal/httputil/fetch.go, with GetJWT in Login
--   Portal        internal/portal/; Tokens is about the token cache. Api/Routes is api/routes.go
--   Commands      cmd/pomerium-cli/kubernetes.go (Kubernetes) and cache.go (Credentials, Paths),
--                 proxy.go (Proxy), tcp.go, udp.go and routes.go (Tunnels), the TLS flags of main.go
--                 (Tls), internal/cache/cache.go (Paths) and version/version.go (Version)
--   Examples      tests, and the theorems at concrete inputs
--
-- A handler is a function from a state to the new state and its answer, so that what was written
-- before an error stays written. A handler that may panic returns `none`. Records are values: the
-- pointers that byID and byTag share are kept in agreement by the invariant of the index. A
-- context is the number of its `context.WithCancel`, calling its cancel function is noted in
-- `cancelled`, and a goroutine that is started is noted in `tasks`. The order of a `range` over a
-- map is the order of an association list, which no theorem names.
--
-- Goroutines that share state take turns: those of the broadcaster are steps of a relation, those
-- of the session manager and of the login are functions from an event to the next state. A theorem
-- about them ranges over all orders of turns. A run of a tunneler is the list of its actions.
--
-- Loops are structural recursion, over the results of the calls that a loop makes, but for the
-- endless ones that are taken apart into turns, and for `tunnel_udp`, whose recursive call is on fuel: more fuel than there
-- are tunnelers is enough, since a retry drops one.
--
-- Parameters, with what is assumed of them where a theorem needs it: protojson and anypb
-- (`Codec`), the config store (`Provider`), `uuid.NewString`, url.Parse, strings.ToLower,
-- crypto/tls and crypto/x509, package os, package net, net/http, quic-go and its variable-length
-- integers, encoding/json, the cache of groupcache/lru, the decoding of a token, the hash of a cache
-- key, the opening of a browser, the login, and the handler that a token is for. The network of a
-- run of a tunneler is a `Peer`, with the result of each call that the run makes; it is not assumed
-- to do anything, but for the theorem on the fallback, where its errors do not wrap an error that is
-- private to the package.
--
-- Not modelled: the commands for the databroker, the services and the version, the server of the
-- HTTP proxy, the parsing of flags and signals, since they connect libraries; and the calls of
-- the operating system for the certificate store. The copies of data between two connections are
-- the libraries'; how they end is a result of the run. The timeouts of sessions are part of what
-- ends them. Log
-- output, the generated code, and third_party/ are left out. The mutexes of the services make a
-- handler one step; where a lock is released in between, in the fallback of the tunnelers, what
-- others do meanwhile is part of the parameter that runs there.
pub mod Base
pub mod Proto
pub mod Net
pub mod Authclient
pub mod Portal
pub mod Commands
pub mod Certstore
pub mod Jwt
pub mod Tunnel
pub mod Api
mod Examples
