-- ===== src/TlsAcceptor/Counts.antt =====
-- How many connections come of the sockets that came in (tls_acceptor/src/tls_acceptor.rs).
use drawbridge_ingress.Prelude.{
  ◌+◌, ◌≤◌, ◌≡◌, refl, ap, ◌∙◌, Option, none, some, List, [], ◌∷◌, ◌++◌, arith, length,
  length-append,
}
use drawbridge_ingress.Prelude.Maps.{String}
use drawbridge_ingress.Ingress.Certificates.{Resolved}
use drawbridge_ingress.TlsAcceptor.{
  Rustls, TlsAcceptor, new, accept, handle, send_result, finish, take_result, poll_accept, Step,
  accepts, finishes, polls, changes, Reachable, begins, steps,
}

module _ {Socket Config Stream State : Type 0} (rustls : Rustls Socket Config Stream)
    (resolve : State → Option String → Resolved Config) where
  Counted : TlsAcceptor Socket Stream State → Type 0
  Counted a = length a.tasks + (length a.channel + length a.delivered) ≤ length a.accepted

  accept-Counted :
      (came : Option (Option Socket)) (a : TlsAcceptor Socket Stream State)
      → Counted a
      → Counted (accept rustls resolve came a)
  unfolding accept Counted
  accept-Counted none a h = h
  accept-Counted (some none) a h = h
  accept-Counted (some (some socket)) a h = omega (arith, length-append a.tasks (socket ∷ []))

  length-send_result :
      (result : Option (Option Stream)) (channel : List (Option Stream))
      → length (send_result rustls resolve result channel) ≤ length channel + 1
  unfolding send_result
  length-send_result none channel = omega arith
  length-send_result (some r) channel = omega (arith, length-append channel (r ∷ []))

  finish-Counted :
      (before : List Socket) (socket : Socket) (after : List Socket)
      (a : TlsAcceptor Socket Stream State)
      → a.tasks ≡ before ++ socket ∷ after
      → Counted a
      → Counted (finish rustls resolve before socket after a)
  unfolding finish Counted
  finish-Counted before socket after a running h =
      let sent = length-send_result (handle rustls resolve a.resolver socket) a.channel in
      let tasks = ap length running ∙ length-append before (socket ∷ after) in
      let left = length-append before after in omega arith

  take_result-Counted :
      (channel : List (Option Stream)) (a : TlsAcceptor Socket Stream State)
      → a.channel ≡ channel
      → Counted a
      → Counted (take_result rustls resolve channel a).1
  unfolding take_result Counted
  take_result-Counted [] a same h = h
  take_result-Counted (none ∷ channel) a same h = let n = ap length same in omega arith
  take_result-Counted (some stream ∷ channel) a same h = let n = ap length same in omega arith

  step-Counted :
      {a a' : TlsAcceptor Socket Stream State} → Step rustls resolve a a' → Counted a → Counted a'
  unfolding poll_accept Counted
  step-Counted {a} (accepts came) h = accept-Counted came a h
  step-Counted {a} (finishes before socket after running) h =
      finish-Counted before socket after a running h
  step-Counted {a} polls h = take_result-Counted a.channel a refl h
  step-Counted {a} (changes resolver) h = h

  Reachable-Counted :
      {start : State} {a : TlsAcceptor Socket Stream State}
      → Reachable rustls resolve start a
      → Counted a
  unfolding new Counted
  Reachable-Counted begins = omega arith
  Reachable-Counted (steps before step) = step-Counted step (Reachable-Counted before)

  -- However tasks, polls and changes of the certificates interleave, the connections that the
  -- server got, those that wait in the channel and the tasks that run are together at most as many
  -- as the sockets that came in.
  delivered_bound :
      (start : State) (a : TlsAcceptor Socket Stream State)
      → Reachable rustls resolve start a
      → length a.tasks + (length a.channel + length a.delivered) ≤ length a.accepted
  unfolding Counted
  delivered_bound start a reached = Reachable-Counted reached
