-- ===== src/Congress/Cluster/Unelected.antt =====
-- A leader that nobody elected: the handler of congress/src/states/leader.rs, cancelled between the
-- term and the role.
use drawbridge_ingress.Congress.Types.{Message, Env}
use drawbridge_ingress.Congress.Task.{leader_loop, Node}
use drawbridge_ingress.Congress.Cluster.{Cluster}

module _ {ℓ} {Msg : Type ℓ} (env : Env) (m : Message Msg) (nd : Node) where
  abbrev stays : Node
  stays = record nd { senator = record nd.senator { term = m.term }; pc = leader_loop }
