-- ===== src/Congress/Cluster/Traffic.antt =====
-- The network of a cluster keeps the invariant: messages that are taken off the wire, lost or put
-- on it, and what the program that uses the crate broadcasts.
use drawbridge_ingress.Prelude.{
  ℕ, suc, ◌+◌, ◌≡◌, refl, ap, inl, List, [], ◌∷◌, ◌++◌, arith, weigh, weigh-append, All, All-append,
  All-left, All-right, All-mono,
}
use drawbridge_ingress.Congress.Types.{custom, Message, Env}
use drawbridge_ingress.Congress.Task.{Event, turn, recv}
use drawbridge_ingress.Congress.Senator.{broadcast_message}
use drawbridge_ingress.Congress.Cluster.{Spawned, Cluster, put, spawned_message}
use drawbridge_ingress.Congress.Cluster.Moves.{credit, event_term}
use drawbridge_ingress.Congress.Cluster.Effects.{sent-spawns, spawns-IsSpawn}
use drawbridge_ingress.Congress.Cluster.Invariant.{grant, Ballots, IsLow, IsTask, Inv, Ready}
use drawbridge_ingress.Congress.Cluster.Preserve.{quiet_Inv}

-- A message taken off a list.
weigh-remove {ℓ} :
    {A : Type ℓ} (w : A → ℕ) (before after : List A) (m : A)
    → weigh w (before ++ m ∷ after) ≡ weigh w (before ++ after) + w m
weigh-remove w before after m =
    omega (arith, weigh-append w before (m ∷ after), weigh-append w before after)

All-remove {ℓ κ} :
    {A : Type ℓ} (P : A → Type κ) (before after : List A) (m : A)
    → All P (before ++ m ∷ after)
    → All P (before ++ after) × P m
All-remove P before after m h =
    let rest = All-right P before (m ∷ after) h in
    (All-append P before after (All-left P before (m ∷ after) h) rest.1, rest.0)

module _ {ℓ} {Msg : Type ℓ} {n k : ℕ} {c : Cluster Msg} {b : Ballots} (v : Inv n k c b) where
  pub own-Ready :
      (i : ℕ) (e : Event Msg) → event_term e ≡ 0 → ((t : ℕ) → credit e t ≡ 0) → Ready n k c i e b
  own-Ready i e zero none_brought = record {
    agrees = v.agrees;
    unused = v.unused;
    counted = λ j t. ground (arith, v.counted j t, none_brought t);
    elected = v.elected;
    low = v.low;
    low_event = omega arith;
    low_wire = v.low_wire;
    low_spawned = v.low_spawned;
  }

  pub deliver-Ready :
      (i : ℕ) (m : Message Msg) (before after : List (Message Msg))
      → c.wire ≡ before ++ m ∷ after
      → m.to ≡ i
      → Ready n k (record c { wire = before ++ after }) i (recv m) b
  deliver-Ready i m before after w to =
      let low = All-remove (IsLow k) before after m (rw w at v.low_wire) in
      record {
        agrees = v.agrees;
        unused = v.unused;
        counted = λ j t. ground (
          arith,
          v.counted j t,
          weigh-remove (grant j t) before after m,
          ap (weigh (grant j t)) w,
        );
        elected = v.elected;
        low = v.low;
        low_event = low.1;
        low_wire = low.0;
        low_spawned = v.low_spawned;
      }

-- The steps of the network and of the program that uses the crate.
module _ {ℓ} {Msg : Type ℓ} {n k : ℕ} {c : Cluster Msg} {b : Ballots} (v : Inv n k c b) where
  pub lose-Inv :
      (m : Message Msg) (before after : List (Message Msg))
      → c.wire ≡ before ++ m ∷ after
      → Inv n (suc k) (record c { wire = before ++ after }) b
  lose-Inv m before after w =
      let low = All-remove (IsLow k) before after m (rw w at v.low_wire) in
      record {
        agrees = v.agrees;
        unused = v.unused;
        counted = λ j t. omega (
          arith,
          v.counted j t,
          weigh-remove (grant j t) before after m,
          ap (weigh (grant j t)) w,
        );
        elected = v.elected;
        low = λ i. omega (arith, v.low i);
        low_wire = All-mono (IsLow k) (IsLow (suc k)) (λ m p. omega arith) (before ++ after) low.0;
        low_spawned =
            All-mono (IsTask k) (IsTask (suc k)) (λ p q. (omega arith, q.1)) c.spawned
              v.low_spawned;
      }

  pub flush-Inv :
      (p : Spawned Msg) (before after : List (Spawned Msg))
      → c.spawned ≡ before ++ p ∷ after
      → Inv n
          (suc k)
          (record c { wire = c.wire ++ spawned_message c p ∷ []; spawned = before ++ after })
          b
  unfolding spawned_message
  flush-Inv p before after w =
      let (rest, (low, quiet)) = All-remove (IsTask k) before after p (rw w at v.low_spawned) in
      record {
        agrees = v.agrees;
        unused = v.unused;
        counted = λ j t. ground (
          arith,
          v.counted j t,
          quiet,
          weigh-append (grant j t) c.wire (spawned_message c p ∷ []),
        );
        elected = v.elected;
        low = λ i. omega (arith, v.low i);
        low_wire =
            All-append (IsLow (suc k)) c.wire (spawned_message c p ∷ [])
              (All-mono (IsLow k) (IsLow (suc k)) (λ m p. omega arith) c.wire v.low_wire)
              (omega arith, tt);
        low_spawned =
            All-mono (IsTask k) (IsTask (suc k)) (λ p q. (omega arith, q.1)) (before ++ after) rest;
      }

  pub say-Inv :
      (i : ℕ) (env : Env) (x : Msg)
      → Inv n
          (suc k)
          (put c i (c.node i) (broadcast_message (custom x) env.members (c.node i).senator))
          b
  unfolding broadcast_message
  say-Inv i env x =
      quiet_Inv (own-Ready v i turn refl (λ t. refl)) (c.node i) _
        (spawns-IsSpawn (c.node i).term (custom x) env.members refl) (v.agrees i) (omega arith)
        (inl refl) (sent-spawns (c.node i).term (custom x) env.members) (λ t. omega arith)
        (λ p. (p, refl))
