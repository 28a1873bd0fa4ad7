-- ===== src/Lib.antt =====
-- Drawbridge Ingress: a model of the ingress controller and of its election crate, with proofs.
--
-- The program. Every pod of the ingress serves HTTP and HTTPS for the services of a Kubernetes
-- cluster. The pods elect a leader among them (crate `congress`), which obtains certificates and
-- ACME challenges and shares them with the others (crate `drawbridge_ingress`). A watch over the
-- ingress resources fills a routing table, by which a proxy forwards requests to backends. The
-- senator of `congress` reports changes of role and messages of peers to the leadership system; a
-- change of role to leader starts the certificates, and what is shared comes in as messages at the
-- peers. The leadership system adds a peer to the network of `congress` for each connection.
--
-- The files, and the code that they model (paths from the repository's root).
--   Prelude and its children: Boolean tests, lists, bytes, hash maps as association lists, values of
--     headers, and actions: code that runs in an outside world, whose changes stay after an error.
--   Congress.Types: congress/src/types.rs (`Senator`, `Message`, `Role`, `Peer`, what a step reads).
--   Congress.Senator: congress/src/senator.rs (`handle_vote_request`, `broadcast_message`,
--     `handle_user_message`, `on_role`, `on_message`).
--   Congress.Follower, Candidate, Leader: congress/src/states/*.rs (`run` of each role), cut at the
--     points where the task waits. Congress.Task and Congress.Run: `Senator::start`, the loop around
--     them, as one function `step` of the task's state and an event.
--   Congress.Waiting, Election, Listeners: what a step keeps, and what it does to terms and roles.
--   Congress.Cluster: a step relation of all tasks over a network; Ballots, Moves, Effects, Steps,
--     Invariant, Preserve, Cancelled, Traffic and Safety are about its elections, and Unelected about a
--     leader whose handler is cancelled. Congress.Cuts: what a cancelled handler leaves behind.
--   Congress.Peer: congress/src/peer.rs (`send_msg`, `read_msg`, and the loop of a reader task).
--   Congress.Network: `RPCNetwork` of congress/src/senator.rs (`add_peer`, `send_msg`,
--     `remove_peer`, `members`), with the reader tasks as explicit state.
--   Ingress.Certificates: drawbridge_ingress/src/certificate_state.rs.
--   Ingress.Leadership: drawbridge_ingress/src/leadership_system.rs (`share_state`,
--     `handle_change`, `prepare_challenge`, the listener for messages, the id sent on a connection).
--     Its messages `challenge` and `certs` are `ApplyChallenge` and `ApplyCerts`.
--   Ingress.Cluster: the ingresses of a cluster as a step relation, each with the listeners of
--     leadership_system.rs, the certificates of lets_encrypt.rs and the proxy of proxy.rs; Invariant,
--     Messages and Steps are about what holds of its parts, Kept about what an ingress does not
--     forget, and Served and Issued about what it answers and stores.
--   Ingress.Connections: `new`, the loop of `start`, `handle_connection` and `add_peer` of
--     leadership_system.rs, with the network of congress/src/senator.rs.
--   Ingress.Routing: drawbridge_ingress/src/kube_config_tracker.rs (ingress resources, subscribers,
--     `get_backend`, `Backend`). Order and Ambiguous are about the order in which the backends of a
--     host are tried, which a quotient forgets.
--   Ingress.Proxy: drawbridge_ingress/src/proxy.rs. Ingress.Error: drawbridge_ingress/src/error.rs.
--   Ingress.Generator: drawbridge_ingress/src/lets_encrypt.rs (`get_certs`,
--     `check_for_new_certificates`, and `get_account` in its child Accounts); Hosts and Storing are
--     about the hosts that have a certificate and about the secret, and Ingress.Leadership.Certified
--     about what the peers get of it.
--   Ingress.Peers: the watch over pods of drawbridge_ingress/src/kube_config_tracker.rs and the
--     subscriber of drawbridge_ingress/src/main.rs.
--   Letsencrypt: the loops of letsencrypt/src/order.rs (`new_order`) and
--     letsencrypt/src/account.rs (`generate_certificate`) over the sequence of a server's answers.
--   Letsencrypt.Jwt: letsencrypt/src/jwt.rs. Letsencrypt.Client: the requests and accounts of
--     letsencrypt/src/account.rs, nonce.rs, directory.rs and lib.rs. Letsencrypt.Certificate:
--     letsencrypt/src/cert.rs. Letsencrypt.Orders: letsencrypt/src/order.rs, challenge.rs and the
--     rest of account.rs; Kept is about what an order keeps of the world, Nonces and Fresh about
--     its signed requests, Prepared about its challenges, and Waiting relates its loop to that of
--     Letsencrypt.Polling.
--   TlsAcceptor: tls_acceptor/src/tls_acceptor.rs, as a step relation of the accept loop, the tasks,
--     the channel and the server; Delivered and Counts are about its connections, and Wrapper models
--     tls_acceptor/src/tls_wrapper.rs and utils.rs, which nothing uses.
--   Modules named Tests hold small concrete inputs.
--
-- How the code corresponds to the model.
--   A senator's task is a state with the point where it waits; an event is a message, a timeout or
--   a turn of its loop, and a step returns the effects in order: messages sent, tasks spawned,
--   listeners called. A handler runs to its end in one step, or is cancelled by the timer of its
--   `select!` at one of the locks that it waits for (Congress.Cuts). The network of a cluster delays,
--   reorders and loses, and does not forge or duplicate. Node ids are the indices of the cluster's
--   nodes. A step of a cluster is relative to the members that its nodes have, which a failed send
--   makes fewer, and to the nodes that a timer may cancel: a theorem says what it asks of them.
--   `share_state` reads the role, and then the members and the term anew for each broadcast: what it
--   finds each time is an argument, `Views`, between whose elements the senator may have moved on.
--   A `HashMap` or `HashSet` is a list, whose order is not relied on in a statement about routes.
--   A stream is the list of the bytes that it brings. Terms are of 64 bits and wrap around where
--   they are incremented, lengths of messages and ports of 32 and 16 bits are cut by `%`. A panic
--   of `unwrap` or `expect` is `none` or a flag. In `add_peer` the expression `Ok(())?` has the
--   value `()` and falls through, and so it does in the model.
--
-- Fuel and bounds. The loop of a reader task runs on fuel: each message takes at least the four
-- bytes of its length, so fuel above the number of bytes is enough. The loop that waits for a
-- certificate has no bound of its own, so its fuel is any number of attempts; where it runs out the
-- outcome is `unfinished`. Elections are looked at for fewer than 2 ^ 64 steps, so that no term has
-- wrapped around.
--
-- Parameters. Serialization by `serde`, the regular expressions of `regex` with the law that an
-- escaped text after `^` matches just the texts that begin with it, the certified keys and the
-- configurations of `rustls`, its handshakes, the client and the URIs of `hyper`, the secrets of
-- Kubernetes with the law that what was written is read, `base64`, `p256`, `sha2`, `openssl`, and the
-- hash of pod names. The ACME server is any function of the requests so far.
--
--   In a cluster of ingresses the elections are open: the senator of an ingress may change at any
--   time. A challenge that is prepared during a check for new certificates is a step before the check.
--
-- Not modelled. Wiring and pure I/O: the rest of main.rs, sockets, retries and their delays, the
-- copying of streams, logging and sleeps. The making of keys and of clients (letsencrypt/src/key.rs
-- and request.rs) only calls other crates.
mod Prelude
pub mod Congress
pub mod Ingress
pub mod Letsencrypt
pub mod TlsAcceptor
