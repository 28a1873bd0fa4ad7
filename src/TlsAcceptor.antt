-- ===== src/TlsAcceptor.antt =====
-- The crate tls_acceptor (tls_acceptor/src/tls_acceptor.rs): TLS connections for the server, made in
-- tasks that run side by side. `rustls` and `tokio_rustls` are parameters, and so is the trait
-- `ResolvesServerConf`.
pub mod Delivered
pub mod Counts
pub mod Wrapper
mod Tests
use drawbridge_ingress.Prelude.{◌≡◌, Option, none, some, List, [], ◌∷◌, ◌++◌}
use drawbridge_ingress.Prelude.Maps.{String}
use drawbridge_ingress.Ingress.Certificates.{Resolved, resolved, unknown, panic}

-- The start of a handshake, which may fail, gives the server name that the client sent, if any;
-- with a configuration it goes on to a stream, or fails.
pub record Rustls (Socket Config Stream : Type 0) : Type 0 where
  pub start : Socket → Option (Option String)
  pub into_stream : Socket → Config → Option Stream

-- The tasks that run, each with its socket, and the channel to the server. Kept for the theorems:
-- the sockets that came in, the resolver's states, the latest first, and what the server got.
pub record TlsAcceptor (Socket Stream State : Type 0) : Type 0 where
  pub tasks : List Socket
  pub channel : List (Option Stream)
  pub accepted : List Socket
  pub resolver : State
  pub earlier : List State
  pub delivered : List Stream

-- A poll that is pending, or brings a connection; the code has no other answers.
pub data Poll (Stream : Type 0) : Type 0 where
  pending : Poll Stream
  ready : Stream → Poll Stream

module _ {Socket Config Stream State : Type 0} (rustls : Rustls Socket Config Stream)
    (resolve_server_config : State → Option String → Resolved Config) where
  -- `TlsAcceptor::new`, before anything came in.
  unfoldable pub new : State → TlsAcceptor Socket Stream State
  new resolver = record {
    tasks = [];
    channel = [];
    accepted = [];
    resolver = resolver;
    earlier = [];
    delivered = [];
  }

  -- A round of the accept loop: a socket, an error, or the end of what comes in.
  unfoldable pub accept :
      Option (Option Socket) → TlsAcceptor Socket Stream State → TlsAcceptor Socket Stream State
  accept none a = a
  accept (some none) a = a
  accept (some (some socket)) a = record a {
    tasks = a.tasks ++ socket ∷ [];
    accepted = socket ∷ a.accepted;
  }

  -- With the answer of the resolver: the handshake goes on, or the task ends, or panics.
  unfoldable pub with_config : Socket → Resolved Config → Option (Option Stream)
  with_config socket unknown = none
  with_config socket panic = none
  with_config socket (resolved config) = elim (rustls.into_stream socket config) [
    | none ↦ none
    | some stream ↦ some (some stream)
  ]

  -- A task, from its socket to what it sends; `none` is a task that ends without sending.
  unfoldable pub handle : State → Socket → Option (Option Stream)
  unfolding with_config
  handle resolver socket = elim (rustls.start socket) [
    | none ↦ none
    | some name ↦ with_config socket (resolve_server_config resolver name)
  ]

  unfoldable pub send_result : Option (Option Stream) → List (Option Stream) → List (Option Stream)
  send_result none channel = channel
  send_result (some result) channel = channel ++ result ∷ []

  -- A task ends; `before` and `after` are the tasks beside it.
  unfoldable pub finish :
      List Socket
      → Socket
      → List Socket
      → TlsAcceptor Socket Stream State
      → TlsAcceptor Socket Stream State
  unfolding handle send_result
  finish before socket after a = record a {
    tasks = before ++ after;
    channel = send_result (handle a.resolver socket) a.channel;
  }

  -- `poll_accept`, by what the channel holds; a connection that is ready goes to the server.
  unfoldable pub take_result :
      List (Option Stream)
      → TlsAcceptor Socket Stream State
      → Poll Stream × TlsAcceptor Socket Stream State
  take_result [] a = (pending, a)
  take_result (none ∷ channel) a = (pending, record a { channel = channel })
  take_result (some stream ∷ channel) a =
      (ready stream, record a { channel = channel; delivered = stream ∷ a.delivered })

  unfoldable pub poll_accept :
      TlsAcceptor Socket Stream State → Poll Stream × TlsAcceptor Socket Stream State
  unfolding take_result
  poll_accept a = take_result a.channel a

  -- What may happen next. The resolver's state changes under the tasks.
  pub data Step : TlsAcceptor Socket Stream State → TlsAcceptor Socket Stream State → Type 0 where
    accepts :
        {a : TlsAcceptor Socket Stream State} (came : Option (Option Socket))
        → Step a (accept came a)
    finishes :
        {a : TlsAcceptor Socket Stream State} (before : List Socket) (socket : Socket)
        (after : List Socket)
        → a.tasks ≡ before ++ socket ∷ after
        → Step a (finish before socket after a)
    polls : {a : TlsAcceptor Socket Stream State} → Step a (poll_accept a).1
    changes :
        {a : TlsAcceptor Socket Stream State} (resolver : State)
        → Step a (record a { resolver = resolver; earlier = a.resolver ∷ a.earlier })

  pub data Reachable (start : State) : TlsAcceptor Socket Stream State → Type 0 where
    begins : Reachable start (new start)
    steps :
        {a a' : TlsAcceptor Socket Stream State}
        → Reachable start a
        → Step a a'
        → Reachable start a'
