-- ===== src/Congress/Cluster/Safety.antt =====
-- What holds in every state that a cluster of senators reaches.
use drawbridge_ingress.Prelude.{
  ℕ, suc, ◌≤◌, ◌<◌, ◌≡◌, refl, none, some, List, [], ◌++◌, arith, u64_mod, ℕ_discrete,
}
use drawbridge_ingress.Congress.Types.{leader, Effect, Env}
use drawbridge_ingress.Congress.Task.{Event, turn, timeout, recv, Node}
use drawbridge_ingress.Congress.Run.{step}
use drawbridge_ingress.Congress.Waiting.{step-Agrees}
use drawbridge_ingress.Congress.Cluster.{
  Sees, Cluster, put, NoLeader, Step, act, expire, deliver, cut, cut_win, flush, lose, say, init,
  Reach, here, next,
}
use drawbridge_ingress.Congress.Cluster.Ballots.{tally-add-le}
use drawbridge_ingress.Congress.Cluster.Steps.{step-Move}
use drawbridge_ingress.Congress.Cluster.Invariant.{Ballots, Inv, Ready, Grows}
use drawbridge_ingress.Congress.Cluster.Preserve.{put-Inv}
use drawbridge_ingress.Congress.Cluster.Cancelled.{IsLeft, cut-IsLeft, cut_win-IsLeft}
use drawbridge_ingress.Congress.Cluster.Traffic.{
  own-Ready, deliver-Ready, lose-Inv, flush-Inv, say-Inv,
}

module _ {ℓ} {Msg : Type ℓ} {n k : ℕ} {c : Cluster Msg} {b : Ballots} (v : Inv n k c b)
    (small : suc k < u64_mod) where
  -- A step of node `i` on an event that has reached it.
  node-Inv :
      (i : ℕ) (env : Env) (e : Event Msg) (c' : Cluster Msg) {nd : Node} {es : List (Effect Msg)}
      → Ready n k c' i e b
      → i < n
      → Sees n env
      → step env e (c'.node i) ≡ some (nd, es)
      → (b' : Ballots) × Inv n (suc k) (put c' i nd es) b' × Grows n b b'
  node-Inv i env e c' {nd} {es} r lt sees s =
      let (move, spawns) = step-Move env e (c'.node i) nd es (r.agrees i) s in
      put-Inv r env nd es lt sees small spawns (step-Agrees env (c'.node i) e nd es s) move

  -- What is left of node `i` when a timer cancels it.
  left-Inv :
      (i : ℕ) (env : Env) (e : Event Msg) (c' : Cluster Msg) {nd : Node}
      → Ready n k c' i e b
      → i < n
      → Sees n env
      → IsLeft env e (c'.node i) nd
      → (b' : Ballots) × Inv n (suc k) (put c' i nd []) b' × Grows n b b'
  left-Inv i env e c' {nd} r lt sees left = put-Inv r env nd [] lt sees small tt left.1 left.0

  Step-Inv :
      {d : Cluster Msg}
      → Step n (Sees n) NoLeader c d
      → (b' : Ballots) × Inv n (suc k) d b' × Grows n b b'
  Step-Inv (act i env lt sees s) =
      node-Inv i env turn c (own-Ready v i turn refl (λ t. refl)) lt sees s
  Step-Inv (expire i env lt sees s) =
      node-Inv i env timeout c (own-Ready v i timeout refl (λ t. refl)) lt sees s
  Step-Inv (deliver i env m before after lt sees w to s) =
      node-Inv i env (recv m) (record c { wire = before ++ after })
        (deliver-Ready v i m before after w to) lt sees s
  Step-Inv (cut i env m before after nd lt sees w to on among) =
      left-Inv i env (recv m) (record c { wire = before ++ after })
        (deliver-Ready v i m before after w to) lt sees
        (cut-IsLeft env m (c.node i) nd (v.agrees i) on among)
  Step-Inv (cut_win i env nd lt sees on among) =
      left-Inv i env turn c (own-Ready v i turn refl (λ t. refl)) lt sees
        (cut_win-IsLeft env (c.node i) nd among)
  Step-Inv (flush p before after w) = (b, flush-Inv v p before after w, λ t x. omega arith)
  Step-Inv (lose m before after w) = (b, lose-Inv v m before after w, λ t x. omega arith)
  Step-Inv (say i env x lt) = (b, say-Inv v i env x, λ t x. omega arith)

-- The cluster starts without ballots.
init-Inv {ℓ} :
    {Msg : Type ℓ} (n : ℕ) (delay : ℕ → ℕ) (env : ℕ → Env)
    → Inv n 0 (init {Msg = Msg} delay env) (λ t v. none)
unfolding init
init-Inv n delay env = record {
  agrees = λ i. tt;
  unused = λ v t p. refl;
  counted = λ i t. ground arith;
  elected = λ i p. cc;
  low = λ i. omega arith;
  low_wire = tt;
  low_spawned = tt;
}

Reach-Inv {ℓ} :
    {Msg : Type ℓ} {delay : ℕ → ℕ} {env : ℕ → Env} {n k : ℕ} {c : Cluster Msg}
    → Reach n (Sees n) NoLeader delay env k c
    → k < u64_mod
    → (b : Ballots) × Inv n k c b
Reach-Inv {delay} {env} {n} here small = ((λ t v. none), init-Inv n delay env)
Reach-Inv (next {k = j} r s) small =
    let (b, v) = Reach-Inv r (omega arith) in let (b', v', grows) = Step-Inv v small s in (b', v')

-- The steps from a state that is reached in `k` to a later one.
pub data Steps {ℓ} {Msg : Type ℓ} (n k : ℕ) (c : Cluster Msg) : ℕ → Cluster Msg → Type ℓ where
  now : Steps n k c k c
  more :
      {j : ℕ} {d e : Cluster Msg}
      → Steps n k c j d
      → Step n (Sees n) NoLeader d e
      → Steps n k c (suc j) e

module _ {ℓ} {Msg : Type ℓ} {n k : ℕ} {c : Cluster Msg} where
  Steps-le : {j : ℕ} {d : Cluster Msg} → Steps n k c j d → k ≤ j
  Steps-le now = omega arith
  Steps-le (more p s) = omega (arith, Steps-le p)

  -- No candidate loses a ballot.
  Steps-Inv :
      {b : Ballots} {j : ℕ} {d : Cluster Msg}
      → Inv n k c b
      → Steps n k c j d
      → j < u64_mod
      → (b' : Ballots) × Inv n j d b' × Grows n b b'
  Steps-Inv {b} v now small = (b, v, λ t x. omega arith)
  Steps-Inv v (more {j} p s) small =
      let (b', v', grows) = Steps-Inv v p (omega arith) in
      let (b'', v'', grows') = Step-Inv v' small s in
      (b'', v'', λ t x. omega (arith, grows t x, grows' t x))

-- Two nodes that are leaders in the same term, each between two of its handlers, are one node, in a
-- cluster of n nodes in which at every step of a node `rpc.members()` shows it all the others at
-- least, and no timer cancels a leader in the middle of a handler; those of candidates may be
-- cancelled. The first leads in a state that the cluster reaches, the second in that or a later one,
-- in fewer than 2^64 steps, whatever messages are lost, delayed or overtaken.
pub election_safety {ℓ} :
    {Msg : Type ℓ} {delay : ℕ → ℕ} {env : ℕ → Env} {n k l : ℕ} {c d : Cluster Msg}
    → Reach n (Sees n) NoLeader delay env k c
    → Steps n k c l d
    → l < u64_mod
    → (i j : ℕ) → (c.node i).role ≡ leader
    → (d.node j).role ≡ leader
    → (c.node i).term ≡ (d.node j).term
    → i ≡ j
election_safety {n} {c} r later small i j li lj same = elim (ℕ_discrete i j) [
  | yes e ↦ e
  | no other ↦
      let (b, v) = Reach-Inv r (omega (arith, Steps-le later)) in
      let (b', v', grows) = Steps-Inv v later small in
      absurd (
        omega (
          arith,
          v.elected i li,
          grows (c.node i).term i,
          (rw (← same) at (v'.elected j lj)),
          tally-add-le n (b' (c.node i).term) i j other,
        ))
]
