-- ===== src/Congress/Cluster.antt =====
-- Several senators on one network: the tasks of congress/src/senator.rs and congress/src/states/*.rs
-- interleaved in any order, with the messages that are under way. A message may be delayed,
-- overtaken or lost, and is delivered at most once. A handler runs to its end, or a timer cancels it at
-- one of the locks that it waits for. While a handler waits, the tasks that send a message read a
-- role that is half changed, but no node reads the role of a message.
pub mod Ballots
pub mod Moves
pub mod Effects
pub mod Steps
pub mod Invariant
pub mod Cancelled
pub mod Preserve
pub mod Traffic
pub mod Safety
pub mod Unelected
mod Tests
use drawbridge_ingress.Prelude.{
  ℕ, suc, ◌+◌, ◌≤◌, ◌<◌, ◌≡◌, ◌≢◌, Among, some, List, [], ◌∷◌, ◌++◌, length, ◌==◌, if◌then◌else◌,
}
use drawbridge_ingress.Congress.Types.{
  NodeId, Role, leader, MessageType, custom, Message, Senator, Effect, send, spawn_send, call_role,
  call_message, Env,
}
use drawbridge_ingress.Congress.Task.{Event, turn, timeout, recv, Node}
use drawbridge_ingress.Congress.Senator.{new, broadcast_message}
use drawbridge_ingress.Congress.Run.{step, start}
use drawbridge_ingress.Congress.Cuts.{recv_cuts, win_cuts}

abbrev pub update {ℓ} : {A : Type ℓ} → (ℕ → A) → ℕ → A → ℕ → A
update f i a j = if i == j then a else f j

-- A task that `broadcast_message` spawned and that has not sent its message yet.
pub record Spawned {ℓ} (Msg : Type ℓ) : Type ℓ where
  pub owner : NodeId
  pub to : NodeId
  pub term : ℕ
  pub msg : MessageType Msg

pub record Cluster {ℓ} (Msg : Type ℓ) : Type ℓ where
  pub node : ℕ → Node
  pub wire : List (Message Msg)
  pub spawned : List (Spawned Msg)

module _ {ℓ} {Msg : Type ℓ} where
  -- The messages, and the spawned tasks, among the effects of a step.
  unfoldable pub sent : List (Effect Msg) → List (Message Msg)
  sent [] = []
  sent (send m ∷ es) = m ∷ sent es
  sent (spawn_send to t m ∷ es) = sent es
  sent (call_role f r ∷ es) = sent es
  sent (call_message f m ∷ es) = sent es

  unfoldable pub tasks : NodeId → List (Effect Msg) → List (Spawned Msg)
  tasks i [] = []
  tasks i (send m ∷ es) = tasks i es
  tasks i (spawn_send to t m ∷ es) = record { owner = i; to = to; term = t; msg = m } ∷ tasks i es
  tasks i (call_role f r ∷ es) = tasks i es
  tasks i (call_message f m ∷ es) = tasks i es

  -- Node `i` has moved to `nd`.
  unfoldable pub put : Cluster Msg → ℕ → Node → List (Effect Msg) → Cluster Msg
  put c i nd es = record {
    node = update c.node i nd;
    wire = c.wire ++ sent es;
    spawned = c.spawned ++ tasks i es;
  }

  -- The message that a spawned task sends: the term is that of the broadcast, the role that of now.
  unfoldable pub spawned_message : Cluster Msg → Spawned Msg → Message Msg
  spawned_message c p = record {
    from_role = (c.node p.owner).role;
    from = p.owner;
    to = p.to;
    term = p.term;
    msg = p.msg;
  }

-- `rpc.members()` shows all the other nodes at least. A failed send takes a peer out of the members.
abbrev pub Sees : ℕ → Env → Type 0
Sees n env = n ≤ length env.members + 1

-- A timer cancels no handler of a leader, but those of candidates.
abbrev pub NoLeader : Node → Type 0
NoLeader nd = nd.role ≢ leader

-- A step of the cluster of the nodes below `n`, where the members that a node has at a step are as
-- `Seen` says, and `Cut` holds of the nodes that a timer may cancel in the middle of a handler.
pub data Step {ℓ} {Msg : Type ℓ} (n : ℕ) (Seen : Env → Type 0) (Cut : Node → Type 0)
    (c : Cluster Msg) : Cluster Msg → Type ℓ where
  act :
      (i : ℕ) (env : Env) {nd : Node} {es : List (Effect Msg)}
      → i < n
      → Seen env
      → step env turn (c.node i) ≡ some (nd, es)
      → Step n Seen Cut c (put c i nd es)
  expire :
      (i : ℕ) (env : Env) {nd : Node} {es : List (Effect Msg)}
      → i < n
      → Seen env
      → step env timeout (c.node i) ≡ some (nd, es)
      → Step n Seen Cut c (put c i nd es)
  deliver :
      (i : ℕ) (env : Env) (m : Message Msg) (before after : List (Message Msg)) {nd : Node}
      {es : List (Effect Msg)}
      → i < n
      → Seen env
      → c.wire ≡ before ++ m ∷ after
      → m.to ≡ i
      → step env (recv m) (c.node i) ≡ some (nd, es)
      → Step n Seen Cut c (put (record c { wire = before ++ after }) i nd es)
  cut :
      (i : ℕ) (env : Env) (m : Message Msg) (before after : List (Message Msg)) (nd : Node)
      → i < n
      → Seen env
      → c.wire ≡ before ++ m ∷ after
      → m.to ≡ i
      → Cut (c.node i)
      → Among nd (recv_cuts env m (c.node i).pc (c.node i))
      → Step n Seen Cut c (put (record c { wire = before ++ after }) i nd [])
  cut_win :
      (i : ℕ) (env : Env) (nd : Node)
      → i < n
      → Seen env
      → Cut (c.node i)
      → Among nd (win_cuts env (c.node i).pc (c.node i))
      → Step n Seen Cut c (put c i nd [])
  flush :
      (p : Spawned Msg) (before after : List (Spawned Msg))
      → c.spawned ≡ before ++ p ∷ after
      → Step n Seen Cut c
          (record c { wire = c.wire ++ spawned_message c p ∷ []; spawned = before ++ after })
  lose :
      (m : Message Msg) (before after : List (Message Msg))
      → c.wire ≡ before ++ m ∷ after
      → Step n Seen Cut c (record c { wire = before ++ after })
  say :
      (i : ℕ) (env : Env) (x : Msg)
      → i < n
      → Step n Seen Cut c
          (put c i (c.node i) (broadcast_message (custom x) env.members (c.node i).senator))

-- The cluster that starts: each node with its own delay, clock and draw.
unfoldable pub init {ℓ} : {Msg : Type ℓ} → (ℕ → ℕ) → (ℕ → Env) → Cluster Msg
unfolding new start
init delay env = record { node = λ i. start (new (delay i) (env i) i); wire = []; spawned = [] }

-- What `n` nodes reach in `k` steps.
pub data Reach {ℓ} {Msg : Type ℓ} (n : ℕ) (Seen : Env → Type 0) (Cut : Node → Type 0)
    (delay : ℕ → ℕ) (env : ℕ → Env) : ℕ → Cluster Msg → Type ℓ where
  here : Reach n Seen Cut delay env 0 (init delay env)
  next :
      {k : ℕ} {c d : Cluster Msg}
      → Reach n Seen Cut delay env k c
      → Step n Seen Cut c d
      → Reach n Seen Cut delay env (suc k) d
