-- ===== src/TlsAcceptor/Wrapper.antt =====
-- tls_acceptor/src/tls_wrapper.rs and utils.rs, which no other module of the crate uses: a stream that
-- is polled while its handshake may not be over, and a reader of what is ready. The streams of
-- `tokio_rustls` are parameters.
use drawbridge_ingress.Prelude.{ℕ, ◌≡◌, refl, List, [], ◌∷◌, ◌⊎◌, inl, inr, map, length}

-- `Poll<Result<A, Error>>`
data Polled (Error A : Type 0) : Type 0 where
  pending : Polled Error A
  ready : Error ⊎ A → Polled Error A

-- The four polls of a stream: what a read brings into a buffer of some length, how many bytes a
-- write took, and the two that only end.
record AsyncStream (Stream Error : Type 0) : Type 0 where
  poll_read : ℕ → Stream → Polled Error (List ℕ) × Stream
  poll_write : List ℕ → Stream → Polled Error ℕ × Stream
  poll_flush : Stream → Polled Error (Unit {0}) × Stream
  poll_shutdown : Stream → Polled Error (Unit {0}) × Stream

-- `SyncReadAdapter`: an error of the stream, or that it would block.
data ReadError (Error : Type 0) : Type 0 where
  would_block : ReadError Error
  failed : Error → ReadError Error

-- `read`: how many bytes came, with the bytes.
unfoldable sync_read :
    {Stream Error : Type 0}
    → AsyncStream Stream Error
    → ℕ
    → Stream
    → (ReadError Error ⊎ (ℕ × List ℕ)) × Stream
sync_read api room s =
    let (r, s') = api.poll_read room s in
    (
      elim r [
        | pending ↦ inl would_block
        | ready result ↦ elim result [
          | inl e ↦ inl (failed e)
          | inr filled ↦ inr (length filled, filled)
        ]
      ],
      s',
    )

-- `Acceptor` is the `LazyConfigAcceptor` of the socket.
data TlsWrapperState (Acceptor CertRes CertResFut Accept Stream : Type 0) : Type 0 where
  awaiting_handshake :
      Acceptor → CertRes → TlsWrapperState Acceptor CertRes CertResFut Accept Stream
  getting_cert : CertResFut → TlsWrapperState Acceptor CertRes CertResFut Accept Stream
  handshaking : Accept → TlsWrapperState Acceptor CertRes CertResFut Accept Stream
  streaming : Stream → TlsWrapperState Acceptor CertRes CertResFut Accept Stream

module _ {Acceptor CertRes CertResFut Accept Stream : Type 0} where
  -- `new`, with the acceptor that `tokio_rustls` makes of the socket.
  unfoldable new :
      {Io : Type 0}
      → (Io → Acceptor)
      → Io
      → CertRes
      → TlsWrapperState Acceptor CertRes CertResFut Accept Stream
  new acceptor io cert_resolver = awaiting_handshake (acceptor io) cert_resolver

module _ {Acceptor CertRes CertResFut Accept Stream Error : Type 0}
    (api : AsyncStream Stream Error) where
  unfoldable poll_read :
      ℕ
      → TlsWrapperState Acceptor CertRes CertResFut Accept Stream
      → Polled Error (List ℕ) × TlsWrapperState Acceptor CertRes CertResFut Accept Stream
  poll_read room (awaiting_handshake a r) = (pending, awaiting_handshake a r)
  poll_read room (getting_cert f) = (pending, getting_cert f)
  poll_read room (handshaking a) = (pending, handshaking a)
  poll_read room (streaming s) = let (r, s') = api.poll_read room s in (r, streaming s')

  unfoldable poll_write :
      List ℕ
      → TlsWrapperState Acceptor CertRes CertResFut Accept Stream
      → Polled Error ℕ × TlsWrapperState Acceptor CertRes CertResFut Accept Stream
  poll_write bytes (awaiting_handshake a r) = (pending, awaiting_handshake a r)
  poll_write bytes (getting_cert f) = (pending, getting_cert f)
  poll_write bytes (handshaking a) = (pending, handshaking a)
  poll_write bytes (streaming s) = let (r, s') = api.poll_write bytes s in (r, streaming s')

  unfoldable poll_flush :
      TlsWrapperState Acceptor CertRes CertResFut Accept Stream
      → Polled Error (Unit {0}) × TlsWrapperState Acceptor CertRes CertResFut Accept Stream
  poll_flush (awaiting_handshake a r) = (pending, awaiting_handshake a r)
  poll_flush (getting_cert f) = (pending, getting_cert f)
  poll_flush (handshaking a) = (pending, handshaking a)
  poll_flush (streaming s) = let (r, s') = api.poll_flush s in (r, streaming s')

  unfoldable poll_shutdown :
      TlsWrapperState Acceptor CertRes CertResFut Accept Stream
      → Polled Error (Unit {0}) × TlsWrapperState Acceptor CertRes CertResFut Accept Stream
  poll_shutdown (awaiting_handshake a r) = (pending, awaiting_handshake a r)
  poll_shutdown (getting_cert f) = (pending, getting_cert f)
  poll_shutdown (handshaking a) = (pending, handshaking a)
  poll_shutdown (streaming s) = let (r, s') = api.poll_shutdown s in (r, streaming s')

-- A poll, by which it is, and the answer to it.
data Call : Type 0 where
  read : ℕ → Call
  write : List ℕ → Call
  flush shutdown : Call

data Answer (Error : Type 0) : Type 0 where
  bytes_read : Polled Error (List ℕ) → Answer Error
  bytes_written : Polled Error ℕ → Answer Error
  ended : Polled Error (Unit {0}) → Answer Error

abbrev waits : {Error : Type 0} → Call → Answer Error
waits (read room) = bytes_read pending
waits (write bytes) = bytes_written pending
waits flush = ended pending
waits shutdown = ended pending

module _ {Stream Error : Type 0} (api : AsyncStream Stream Error) where
  -- What a stream by itself answers.
  unfoldable stream_call : Call → Stream → Answer Error × Stream
  stream_call (read room) s = let (r, s') = api.poll_read room s in (bytes_read r, s')
  stream_call (write bytes) s = let (r, s') = api.poll_write bytes s in (bytes_written r, s')
  stream_call flush s = let (r, s') = api.poll_flush s in (ended r, s')
  stream_call shutdown s = let (r, s') = api.poll_shutdown s in (ended r, s')

  unfoldable stream_calls : List Call → Stream → List (Answer Error) × Stream
  unfolding stream_call
  stream_calls [] s = ([], s)
  stream_calls (c ∷ cs) s =
      let (a, s') = stream_call c s in let (as', s'') = stream_calls cs s' in (a ∷ as', s'')

module _ {Acceptor CertRes CertResFut Accept Stream Error : Type 0}
    (api : AsyncStream Stream Error) where
  unfoldable call :
      Call
      → TlsWrapperState Acceptor CertRes CertResFut Accept Stream
      → Answer Error × TlsWrapperState Acceptor CertRes CertResFut Accept Stream
  unfolding poll_read poll_write poll_flush poll_shutdown
  call (read room) w = let (r, w') = poll_read api room w in (bytes_read r, w')
  call (write bytes) w = let (r, w') = poll_write api bytes w in (bytes_written r, w')
  call flush w = let (r, w') = poll_flush api w in (ended r, w')
  call shutdown w = let (r, w') = poll_shutdown api w in (ended r, w')

  unfoldable calls :
      List Call
      → TlsWrapperState Acceptor CertRes CertResFut Accept Stream
      → List (Answer Error) × TlsWrapperState Acceptor CertRes CertResFut Accept Stream
  unfolding call
  calls [] w = ([], w)
  calls (c ∷ cs) w = let (a, w') = call c w in let (as', w'') = calls cs w' in (a ∷ as', w'')

module _ {Acceptor CertRes CertResFut Accept Stream Error Io : Type 0}
    (api : AsyncStream Stream Error) (acceptor : Io → Acceptor) where
  calls-waiting :
      (cs : List Call) (a : Acceptor) (r : CertRes)
      → calls {CertResFut = CertResFut} {Accept = Accept} api cs (awaiting_handshake a r)
        ≡ (map waits cs, awaiting_handshake a r)
  unfolding calls call poll_read poll_write poll_flush poll_shutdown
  calls-waiting [] a r = refl
  calls-waiting (read room ∷ cs) a r = rw (calls-waiting cs a r) refl
  calls-waiting (write bytes ∷ cs) a r = rw (calls-waiting cs a r) refl
  calls-waiting (flush ∷ cs) a r = rw (calls-waiting cs a r) refl
  calls-waiting (shutdown ∷ cs) a r = rw (calls-waiting cs a r) refl

  calls-streaming :
      (cs : List Call) (s : Stream)
      → calls {Acceptor = Acceptor} {CertRes = CertRes} {CertResFut = CertResFut} {Accept = Accept}
          api cs
          (streaming s)
        ≡ ((stream_calls api cs s).0, streaming (stream_calls api cs s).1)
  unfolding calls call stream_calls stream_call poll_read poll_write poll_flush poll_shutdown
  calls-streaming [] s = refl
  calls-streaming (read room ∷ cs) s = rw (calls-streaming cs (api.poll_read room s).1) refl
  calls-streaming (write bytes ∷ cs) s = rw (calls-streaming cs (api.poll_write bytes s).1) refl
  calls-streaming (flush ∷ cs) s = rw (calls-streaming cs (api.poll_flush s).1) refl
  calls-streaming (shutdown ∷ cs) s = rw (calls-streaming cs (api.poll_shutdown s).1) refl

  -- A wrapper that `new` made answers every sequence of polls by waiting for ever: each answer is
  -- pending, and the wrapper stays as it is. A wrapper whose stream is there answers every sequence
  -- of polls as that stream does by itself, and then holds the stream as it is after them.
  calls_lem :
      (cs : List Call) (io : Io) (cert_resolver : CertRes) (s : Stream)
      → (calls {CertResFut = CertResFut} {Accept = Accept} api cs (new acceptor io cert_resolver)
          ≡ (map waits cs, new acceptor io cert_resolver))
        × (calls {Acceptor = Acceptor} {CertRes = CertRes} {CertResFut = CertResFut}
              {Accept = Accept} api cs
              (streaming s)
            ≡ ((stream_calls api cs s).0, streaming (stream_calls api cs s).1))
  unfolding new
  calls_lem cs io cert_resolver s =
      (calls-waiting cs (acceptor io) cert_resolver, calls-streaming cs s)
