-- ===== src/Congress/Peer/Framing.antt =====
-- Round trips of congress/src/peer.rs.
use mathlib.Core.List.{append_assoc}
use drawbridge_ingress.Prelude.{
  ℕ, zero, suc, ◌%◌, ◌^◌, ◌<◌, ◌≡◌, refl, ◌⊎◌, inl, inr, some, List, [], ◌∷◌, ◌++◌, arith, length,
  read_exact, read_exact-append, length-read_exact, Option-cases, from_be_bytes, to_be_bytes,
  length-to_be_bytes, from_be_bytes-to_be_bytes, All,
}
use drawbridge_ingress.Congress.Types.{Message}
use drawbridge_ingress.Congress.Peer.{
  Bincode, Result, ok, err, io, Error, send_msg, read_msg, read_loop, send_all,
}

read_header :
    (n : ℕ) (rest : List ℕ) → read_exact 4 (to_be_bytes 4 n ++ rest) ≡ some (to_be_bytes 4 n, rest)
read_header n rest = rw length-to_be_bytes at (read_exact-append (to_be_bytes 4 n) rest)

Result-cases {ℓ} :
    {A : Type ℓ} (r : Result A) → ((e : Error) × (r ≡ err e)) ⊎ ((a : A) × (r ≡ ok a))
Result-cases (ok a) = inr (a, refl)
Result-cases (err e) = inl (e, refl)

module _ {ℓ} {Msg : Type ℓ} (bincode : Bincode Msg) where
  open bincode use {serialize, deserialize}

  -- A message that `bincode` can carry, in fewer than 2^32 bytes.
  pub record Fits (msg : Message Msg) : Type ℓ where
    pub buf : List ℕ
    pub serialized : serialize msg ≡ some buf
    pub deserialized : deserialize buf ≡ some msg
    pub small : length buf < 2 ^ 32

  frame : List ℕ → List ℕ
  frame buf = to_be_bytes 4 (length buf % 2 ^ 32) ++ buf

  send_msg-Fits : (msg : Message Msg) (f : Fits msg) → send_msg bincode msg ≡ ok (frame f.buf)
  unfolding send_msg frame
  send_msg-Fits msg f = rw f.serialized refl

  read_msg-frame :
      (msg : Message Msg) (f : Fits msg) (rest : List ℕ)
      → read_msg bincode (frame f.buf ++ rest) ≡ ok (msg, rest)
  unfolding read_msg frame
  read_msg-frame msg f rest =
      let e : length f.buf % 2 ^ 32 ≡ length f.buf = omega (arith, f.small) in
      rw
        (
          append_assoc,
          e,
          read_header,
          from_be_bytes-to_be_bytes 4 (length f.buf) f.small,
          read_exact-append,
          f.deserialized,
        )
        refl

  -- What is sent is read: of a message that fits, `read_msg` gives the message back, and leaves the
  -- bytes that came behind it.
  pub read_msg-send_msg :
      (msg : Message Msg) (bytes rest : List ℕ)
      → Fits msg
      → send_msg bincode msg ≡ ok bytes
      → read_msg bincode (bytes ++ rest) ≡ ok (msg, rest)
  read_msg-send_msg msg bytes rest f sent =
      let e : frame f.buf ≡ bytes = cc (send_msg-Fits msg f) in rw (← e) (read_msg-frame msg f rest)

  frames : (msgs : List (Message Msg)) → All Fits msgs → List ℕ
  frames [] h = []
  frames (msg ∷ msgs) h = frame h.0.buf ++ frames msgs h.1

  send_all-Fits :
      (msgs : List (Message Msg)) (h : All Fits msgs) → send_all bincode msgs ≡ ok (frames msgs h)
  unfolding send_all frames
  send_all-Fits [] h = refl
  send_all-Fits (msg ∷ msgs) h = rw (send_msg-Fits msg h.0, send_all-Fits msgs h.1) refl

  read_loop-frames :
      (msgs : List (Message Msg)) (h : All Fits msgs) (fuel : ℕ)
      → length msgs < fuel
      → read_loop bincode fuel (frames msgs h) ≡ some (msgs, io)
  unfolding read_loop frames
  read_loop-frames msgs h zero enough = elim enough [ ]
  read_loop-frames [] h (suc fuel) enough = unfold read_msg read_exact in refl
  read_loop-frames (msg ∷ msgs) h (suc fuel) enough =
      rw
        (
          read_msg-frame msg h.0 (frames msgs h.1),
          read_loop,
          read_loop-frames msgs h.1 fuel (omega arith),
        )
        refl

  -- A reader task delivers all the messages that were sent, in order, and then ends with an I/O
  -- error where the stream ends, if all of them fit; fuel for one more read than there are
  -- messages is enough.
  pub read_loop-send_all :
      (msgs : List (Message Msg)) (bytes : List ℕ) (fuel : ℕ)
      → All Fits msgs
      → send_all bincode msgs ≡ ok bytes
      → length msgs < fuel
      → read_loop bincode fuel bytes ≡ some (msgs, io)
  read_loop-send_all msgs bytes fuel h sent enough =
      let e : frames msgs h ≡ bytes = cc (send_all-Fits msgs h) in
      rw (← e) (read_loop-frames msgs h fuel enough)

  read_msg-shrinks :
      (input rest : List ℕ) (msg : Message Msg)
      → read_msg bincode input ≡ ok (msg, rest)
      → length rest < length input
  unfolding read_msg
  read_msg-shrinks input rest msg h = elim (Option-cases (read_exact 4 input)) [
    | inl short ↦ ground arith
    | inr ((header, body), found) ↦ elim (Option-cases (read_exact (from_be_bytes header) body)) [
      | inl short ↦ ground arith
      | inr ((buf, rest'), found') ↦ ground (
        arith,
        length-read_exact 4 input header body found,
        length-read_exact (from_be_bytes header) body buf rest' found',
      )
    ]
  ]

  -- Whatever a stream brings, its reader task ends: fuel above the number of bytes is enough.
  pub read_loop_total :
      (input : List ℕ) (fuel : ℕ)
      → length input < fuel
      → (msgs : List (Message Msg)) × (e : Error) × (read_loop bincode fuel input ≡ some (msgs, e))
  unfolding read_loop
  read_loop_total input zero enough = elim enough [ ]
  read_loop_total input (suc fuel) enough = elim (Result-cases (read_msg bincode input)) [
    | inl (e, failed) ↦ ([], e, rw (failed, read_loop) refl)
    | inr ((msg, rest), got) ↦
        let (msgs, e, more) =
          read_loop_total rest fuel (omega (arith, read_msg-shrinks input rest msg got)) in
        (msg ∷ msgs, e, rw (got, read_loop, more) refl)
  ]
