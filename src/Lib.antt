-- ===== src/Lib.antt =====
-- multi-region: a framework for a tree of nodes that move opaque envelopes up and down.
--
-- A node accepts children (transport/server.go) and connects to a parent (transport/client.go);
-- node/node.go joins the two: what a child or the program sends is shown to handlers and forwarded
-- to the parent, with a queue and a retry loop for what cannot be sent; what the parent sends is
-- shown to handlers and broadcast to the children.
--
--   Prelude    names of the libraries, lists, Go maps and strings, the printing of numbers
--   Envelope   the message of proto/node.pb.go
--   Metrics    the counters of metrics/metrics.go
--   Server     transport/server.go: `Server` is the struct, each method a function on it; channels
--              are positions in a store, so that a map entry and a stream share one. Server.Upstream
--              is the loop of the Upstream call; Server.Hub adds the running Downstream calls, and
--              its `Event`s are the steps of all goroutines, so a list of them is an interleaving.
--              Server.Listening is Listen, on the answers of net and of auth/auth.go, and
--              Server.Stopping has Stop beside the goroutine of Listen.
--   Auth       auth/auth.go over an interface to files and certificates
--   Resolver   resolver/resolver.go
--   Grpc       the interface to google.golang.org/grpc that the client uses: a parameter
--   Client     transport/client.go over that interface, each method as it runs by itself;
--              Client.Races has reopenUpstream, reopenDownstream, recvLoop and Close in goroutines
--              of their own, cut where they lock and unlock `mu`
--   Node       node/node.go, node/options.go, node/pending.go; Node.Lifecycle has Start and Stop,
--              Node.Loop the steps of the retry loop and of what else touches the queue, Node.Relay
--              the Upstream call of the server with the node's handler in it, Node.Link a child with
--              its parent over a stream that takes envelopes along or breaks, Node.Tree a tree of nodes
--              whose Downstream calls take envelopes down, end and begin, as `TreeEvent`s in any order.
--   Service    examples/node: AllowList is allowlist.go, Storage is storage/bolt.go over an interface
--              `Disk` to bbolt and protobuf, Config is config.go with the options that `main` makes
--              of it, Api is the HTTP handlers of main.go and Api.Routes the patterns that they serve,
--              with net/http's matching as a parameter; Main is `main` itself up to the signal, Run
--              the program after it, over requests and steps of its node in any order; CheckDb is
--              examples/checkdb. The node's service state is the record `Service`, so its hook and
--              its handlers are functions on it.
--   Certs      examples/gencert/main.go, and auth/testutil.go in Certs.TestCa, over an interface
--              `Tools` to the packages that make keys, certificates and files
--   Agent      examples/agent/main.go, with a node at the other end of its requests in Agent.Reports
--
-- Strings are lists of bytes. A Go map is an association list, whose order stands for the order of
-- a `range` loop. Clock readings, what the network answers, what a context holds, what encoding/json
-- makes of a request and whether a transaction of the store commits are arguments.
-- The state of the program on top of the framework is a type parameter, which its handlers and its
-- authorization hook read and change. Counters and sequence numbers are unbounded numbers, loops
-- are structural, and the printing of numbers has fuel one above the number, which its lemma
-- `value-digits` shows to be enough.
--
-- Not modelled: what Serve and Stop of grpc do to the running calls; the flags of gencert; the
-- ticker and the signals of the agent; how net/http serves and matches; generated code; logging.
-- In a tree of nodes a call that ends takes both of its ends away at once. On a link the streams of
-- a child are one line in which envelopes keep their order; a stream that is replaced loses what is
-- under way only where `breaks` says so. A clock reading is not negative, and whether a transaction
-- commits depends on the envelope alone where a whole run is considered.
pub mod Prelude
pub mod Envelope
pub mod Metrics
pub mod Auth
pub mod Server
pub mod Resolver
pub mod Grpc
pub mod Client
pub mod Node
pub mod Service
pub mod Agent
pub mod Certs
