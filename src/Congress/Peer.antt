-- ===== src/Congress/Peer.antt =====
-- congress/src/peer.rs: messages on a stream, each behind its length in four bytes.
-- `bincode` is not part of the repository: its two functions are parameters.
pub mod Framing
use drawbridge_ingress.Prelude.{
  ℕ, zero, suc, ◌%◌, ◌^◌, Option, none, some, List, [], ◌∷◌, ◌++◌, length, to_be_bytes,
  from_be_bytes, read_exact,
}
use drawbridge_ingress.Congress.Types.{NodeId, Message}

-- The identity of a connection. The two halves of its stream are the lists of bytes below.
pub record Peer : Type 0 where
  pub established_by : NodeId
  pub peer_id : NodeId

-- The errors of the crate that reading and writing a message can give.
pub data Error : Type 0 where
  io could_not_serialize could_not_deserialize : Error

pub data Result {ℓ} (A : Type ℓ) : Type ℓ where
  ok : A → Result A
  err : Error → Result A

infixl 5 ◌>>=◌
abbrev pub ◌>>=◌ {ℓ κ} : {A : Type ℓ} {B : Type κ} → Result A → (A → Result B) → Result B
ok a >>= f = f a
err e >>= f = err e

-- `map_err`, of an operation that fails without a value.
abbrev pub ok_or {ℓ} : {A : Type ℓ} → Option A → Error → Result A
ok_or none e = err e
ok_or (some a) e = ok a

-- `bincode::serialize` and `bincode::deserialize`.
pub record Bincode {ℓ} (Msg : Type ℓ) : Type ℓ where
  pub serialize : Message Msg → Option (List ℕ)
  pub deserialize : List ℕ → Option (Message Msg)

abbrev pub deliver {ℓ} : {A : Type ℓ} → A → Option (List A × Error) → Option (List A × Error)
deliver a none = none
deliver a (some (as', e)) = some (a ∷ as', e)

module _ {ℓ} {Msg : Type ℓ} (bincode : Bincode Msg) where
  open bincode use {serialize, deserialize}

  -- The bytes that `send_msg` writes. `buf.len() as u32` keeps the low 32 bits.
  unfoldable pub send_msg : Message Msg → Result (List ℕ)
  send_msg msg = do
    buf ← ok_or (serialize msg) could_not_serialize
    ok (to_be_bytes 4 (length buf % 2 ^ 32) ++ buf)

  -- The message that `read_msg` reads off what the stream has brought, and the bytes behind it.
  -- A stream that ends too early is an I/O error.
  unfoldable pub read_msg : List ℕ → Result (Message Msg × List ℕ)
  read_msg input = do
    header ← ok_or (read_exact 4 input) io
    body ← ok_or (read_exact (from_be_bytes header.0) header.1) io
    msg ← ok_or (deserialize body.0) could_not_deserialize
    ok (msg, body.1)

  -- The loop of a reader task (`add_peer` of congress/src/senator.rs) on all that its stream ever
  -- brings: the messages that go to the channel, and the error that ends it. `none` means that the
  -- fuel ran out.
  unfoldable pub read_loop : ℕ → List ℕ → Option (List (Message Msg) × Error)
  read_loop zero input = none
  read_loop (suc fuel) input = elim (read_msg input) [
    | err e ↦ some ([], e)
    | ok (msg, rest) ↦ deliver msg (read_loop fuel rest)
  ]

  -- The bytes of several messages, one after another.
  unfoldable pub send_all : List (Message Msg) → Result (List ℕ)
  send_all [] = ok []
  send_all (msg ∷ msgs) = do bytes ← send_msg msg; rest ← send_all msgs; ok (bytes ++ rest)
