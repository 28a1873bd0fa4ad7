-- ===== src/TlsAcceptor/Delivered.antt =====
-- What the server gets from the acceptor (tls_acceptor/src/tls_acceptor.rs), with the resolver of
-- drawbridge_ingress/src/certificate_state.rs.
use mathlib.Core.Path.{subst}
use drawbridge_ingress.Prelude.{
  ℕ, ◌≡◌, refl, ap, ◌∙◌, Option, none, some, List, [], ◌∷◌, ◌++◌, inl, inr, All, All-append,
  All-left, All-right, All-mono, Among, Option-cases,
}
use drawbridge_ingress.Prelude.Maps.{String, lookup, string_eq}
use drawbridge_ingress.Ingress.Certificates.{
  CertKey, CertificateState, Resolved, resolved, unknown, panic, resolve_server_config,
}
use drawbridge_ingress.TlsAcceptor.{
  Rustls, TlsAcceptor, new, accept, with_config, handle, send_result, finish, take_result,
  poll_accept, Step, accepts, finishes, polls, changes, Reachable, begins, steps,
}

module _ {Socket Config Stream State : Type 0} (rustls : Rustls Socket Config Stream)
    (resolve : State → Option String → Resolved Config) where
  -- A stream that a task made of an accepted socket, with a state that the resolver had.
  abbrev Made : List Socket → List State → Stream → Type 0
  Made sockets states stream =
      (socket : Socket) × (state : State) × Among socket sockets
      × Among state states
      × (handle rustls resolve state socket ≡ some (some stream))

  abbrev MadeResult : List Socket → List State → Option Stream → Type 0
  MadeResult sockets states none = Unit
  MadeResult sockets states (some stream) = Made sockets states stream

  abbrev AllMade : TlsAcceptor Socket Stream State → Type 0
  AllMade a =
      All (λ socket. Among socket a.accepted) a.tasks
      × All (MadeResult a.accepted (a.resolver ∷ a.earlier)) a.channel
      × All (Made a.accepted (a.resolver ∷ a.earlier)) a.delivered

  later_socket :
      (new_socket : Socket) (sockets : List Socket) (states : List State) (r : Option Stream)
      → MadeResult sockets states r
      → MadeResult (new_socket ∷ sockets) states r
  later_socket new_socket sockets states none h = tt
  later_socket new_socket sockets states (some stream) (socket, state, came, had, made) =
      (socket, state, inr came, had, made)

  later_state :
      (new_state : State) (sockets : List Socket) (states : List State) (r : Option Stream)
      → MadeResult sockets states r
      → MadeResult sockets (new_state ∷ states) r
  later_state new_state sockets states none h = tt
  later_state new_state sockets states (some stream) (socket, state, came, had, made) =
      (socket, state, came, inr had, made)

  accept-AllMade :
      (came : Option (Option Socket)) (a : TlsAcceptor Socket Stream State)
      → AllMade a
      → AllMade (accept rustls resolve came a)
  unfolding accept
  accept-AllMade none a h = h
  accept-AllMade (some none) a h = h
  accept-AllMade (some (some socket)) a (tasks, channel, delivered) =
      let states = a.resolver ∷ a.earlier in
      (
        All-append (λ s. Among s (socket ∷ a.accepted)) a.tasks (socket ∷ [])
            (All-mono (λ s. Among s a.accepted) (λ s. Among s (socket ∷ a.accepted))
              (λ s came. inr came) a.tasks tasks)
            (inl refl, tt),
        All-mono (MadeResult a.accepted states) (MadeResult (socket ∷ a.accepted) states)
            (later_socket socket a.accepted states) a.channel channel,
        All-mono (Made a.accepted states) (Made (socket ∷ a.accepted) states)
            (λ stream. later_socket socket a.accepted states (some stream)) a.delivered delivered,
      )

  send_result-AllMade :
      (sockets : List Socket) (states : List State) (socket : Socket) (state : State)
      (result : Option (Option Stream)) (channel : List (Option Stream))
      → Among socket sockets
      → Among state states
      → handle rustls resolve state socket ≡ result
      → All (MadeResult sockets states) channel
      → All (MadeResult sockets states) (send_result rustls resolve result channel)
  unfolding send_result
  send_result-AllMade sockets states socket state none channel came had made all = all
  send_result-AllMade sockets states socket state (some none) channel came had made all =
      All-append (MadeResult sockets states) channel (none ∷ []) all (tt, tt)
  send_result-AllMade sockets states socket state (some (some stream)) channel came had made all =
      All-append (MadeResult sockets states) channel (some stream ∷ []) all
        ((socket, state, came, had, made), tt)

  finish-AllMade :
      (before : List Socket) (socket : Socket) (after : List Socket)
      (a : TlsAcceptor Socket Stream State)
      → a.tasks ≡ before ++ socket ∷ after
      → AllMade a
      → AllMade (finish rustls resolve before socket after a)
  unfolding finish
  finish-AllMade before socket after a running (tasks, channel, delivered) =
      let came = λ (s : Socket). Among s a.accepted in
      let all = subst (All came) running tasks in
      let rest = All-right came before (socket ∷ after) all in
      (
        All-append came before after (All-left came before (socket ∷ after) all) rest.1,
        send_result-AllMade a.accepted (a.resolver ∷ a.earlier) socket a.resolver
            (handle rustls resolve a.resolver socket) a.channel rest.0 (inl refl) refl channel,
        delivered,
      )

  take_result-AllMade :
      (channel : List (Option Stream)) (a : TlsAcceptor Socket Stream State)
      → All (MadeResult a.accepted (a.resolver ∷ a.earlier)) channel
      → AllMade a
      → AllMade (take_result rustls resolve channel a).1
  unfolding take_result
  take_result-AllMade [] a all h = h
  take_result-AllMade (none ∷ channel) a all (tasks, _, delivered) = (tasks, all.1, delivered)
  take_result-AllMade (some stream ∷ channel) a all (tasks, _, delivered) =
      (tasks, all.1, (all.0, delivered))

  poll_accept-AllMade :
      (a : TlsAcceptor Socket Stream State) → AllMade a → AllMade (poll_accept rustls resolve a).1
  unfolding poll_accept
  poll_accept-AllMade a h = take_result-AllMade a.channel a h.1 h

  step-AllMade :
      {a a' : TlsAcceptor Socket Stream State} → Step rustls resolve a a' → AllMade a → AllMade a'
  step-AllMade {a} (accepts came) h = accept-AllMade came a h
  step-AllMade {a} (finishes before socket after running) h =
      finish-AllMade before socket after a running h
  step-AllMade {a} polls h = poll_accept-AllMade a h
  step-AllMade {a} (changes resolver) (tasks, channel, delivered) =
      let states = a.resolver ∷ a.earlier in
      (
        tasks,
        All-mono (MadeResult a.accepted states) (MadeResult a.accepted (resolver ∷ states))
            (later_state resolver a.accepted states) a.channel channel,
        All-mono (Made a.accepted states) (Made a.accepted (resolver ∷ states))
            (λ stream. later_state resolver a.accepted states (some stream)) a.delivered delivered,
      )

  Reachable-AllMade :
      {start : State} {a : TlsAcceptor Socket Stream State}
      → Reachable rustls resolve start a
      → AllMade a
  unfolding new
  Reachable-AllMade begins = (tt, tt, tt)
  Reachable-AllMade (steps before step) = step-AllMade step (Reachable-AllMade before)

  with_config-resolved :
      (socket : Socket) (stream : Stream) (r : Resolved Config)
      → with_config rustls resolve socket r ≡ some (some stream)
      → (cfg : Config) × (r ≡ resolved cfg) × (rustls.into_stream socket cfg ≡ some stream)
  unfolding with_config
  with_config-resolved socket stream unknown h = cc
  with_config-resolved socket stream panic h = cc
  with_config-resolved socket stream (resolved cfg) h =
      elim (Option-cases (rustls.into_stream socket cfg)) [
        | inl failed ↦ let no : none ≡ some (some stream) = rw (with_config, failed) at h in cc
        | inr (st, made) ↦
            let yes : some (some st) ≡ some (some stream) = rw (with_config, made) at h in
            (cfg, refl, cc)
      ]

module _ {Socket Config Stream Key : Type 0} (rustls : Rustls Socket Config Stream)
    (config : List (List ℕ) → List ℕ → Option Config) where
  -- The certificate of the state for the name that the client sent, and the stream made with it.
  abbrev Certified : CertificateState Key → Socket → Stream → Type 0
  Certified state socket stream =
      (name : String) × (cert : CertKey Key) × (cfg : Config) × (rustls.start socket
        ≡ some (some name))
      × (lookup name state.certs ≡ some cert)
      × (config cert.certs cert.private_key ≡ some cfg)
      × (rustls.into_stream socket cfg ≡ some stream)

  resolve_server_config-resolved :
      (state : CertificateState Key) (name : Option String) (cfg : Config)
      → resolve_server_config config state name ≡ resolved cfg
      → (n : String) × (cert : CertKey Key) × (name ≡ some n)
        × (lookup n state.certs ≡ some cert)
        × (config cert.certs cert.private_key ≡ some cfg)
  unfolding resolve_server_config
  resolve_server_config-resolved state none cfg h = cc
  resolve_server_config-resolved state (some n) cfg h = elim (Option-cases (lookup n state.certs)) [
    | inl missing ↦ let no : unknown ≡ resolved cfg = rw (resolve_server_config, missing) at h in cc
    | inr (cert, has) ↦ elim (Option-cases (config cert.certs cert.private_key)) [
      | inl refused ↦
          let no : panic ≡ resolved cfg = rw (resolve_server_config, has, refused) at h in cc
      | inr (cfg', built) ↦
          let yes : resolved cfg' ≡ resolved cfg = rw (resolve_server_config, has, built) at h in
          (n, cert, refl, has, cc)
    ]
  ]

  handle-Certified :
      (state : CertificateState Key) (socket : Socket) (stream : Stream)
      → handle rustls (resolve_server_config config) state socket ≡ some (some stream)
      → Certified state socket stream
  unfolding handle
  handle-Certified state socket stream h = elim (Option-cases (rustls.start socket)) [
    | inl failed ↦ let no : none ≡ some (some stream) = rw (handle, failed) at h in cc
    | inr (name, began) ↦
        let (cfg, found, made) =
          with_config-resolved rustls (resolve_server_config {Key = Key} config) socket stream
            (resolve_server_config config state name) (rw (handle, began) at h) in
        let (n, cert, named, has, built) = resolve_server_config-resolved state name cfg found in
        (n, cert, cfg, began ∙ ap some named, has, built, made)
  ]

  -- However sockets come in, tasks end, the server polls and the certificates change: a connection
  -- that the server gets was made of a socket that came in, with the certificate that some state of
  -- the certificates had for the name in that socket's handshake.
  pub delivered-Certified :
      (start : CertificateState Key) (a : TlsAcceptor Socket Stream (CertificateState Key))
      → Reachable rustls (resolve_server_config config) start a
      → All
          (λ stream.
            (socket : Socket) × (state : CertificateState Key) × Among socket a.accepted
            × Among state (a.resolver ∷ a.earlier)
            × ((name : String) × (cert : CertKey Key) × (cfg : Config) × (rustls.start socket
                  ≡ some (some name))
                × (lookup name state.certs ≡ some cert)
                × (config cert.certs cert.private_key ≡ some cfg)
                × (rustls.into_stream socket cfg ≡ some stream)))
          a.delivered
  delivered-Certified start a reached =
      let (tasks, channel, delivered) =
        Reachable-AllMade rustls (resolve_server_config config) reached in
      All-mono (Made rustls (resolve_server_config config) a.accepted (a.resolver ∷ a.earlier))
        (λ stream.
          (socket : Socket) × (state : CertificateState Key) × Among socket a.accepted
          × Among state (a.resolver ∷ a.earlier)
          × Certified state socket stream)
        (λ stream (socket, state, came, had, made).
          (socket, state, came, had, handle-Certified state socket stream made))
        a.delivered delivered
