-- ===== src/Ingress/Connections/Tests.antt =====
-- Two ingresses, of which the first dials the second.
use drawbridge_ingress.Prelude.{
  ℕ, ◌≡◌, ◌≢◌, refl, sym, ap, true, some, List, [], ◌∷◌, ◌++◌, arith, if◌then◌else◌,
}
use drawbridge_ingress.Prelude.Maps.{String, str_eq, lookup, nat_eq}
use drawbridge_ingress.Prelude.Action.{ok, ◌>>=◌}
use drawbridge_ingress.Congress.Types.{NodeId}
use drawbridge_ingress.Congress.Network.{add_peer}
use drawbridge_ingress.Congress.Network.Agreement.{established}
use drawbridge_ingress.Ingress.Connections.{Sockets, Rpc, new_rpc, accept_connection, connect_peer}
use drawbridge_ingress.Ingress.Connections.Handshake.{IsSockets, connect_peer-accept_connection}

-- The world is what was written to the last stream.
abbrev sockets : Sockets (Unit {0}) (List ℕ)
sockets = record {
  connect = λ addr w. (some tt, []);
  retry = λ attempt w. attempt w;
  write_all = λ stream bytes w. (true, w ++ bytes);
}

abbrev lossless : IsSockets sockets
lossless = record {
  sent = λ stream w. w;
  sent-connect = λ addr stream w w' done. ap (λ r. r.1) (sym done);
  sent-write_all = λ stream bytes w w' done. ap (λ r. r.1) (sym done);
}

abbrev name_to_hash : String → NodeId
name_to_hash name = if str_eq name "one" then 1 else 2

abbrev system : String → Rpc ℕ (List ℕ)
system name = new_rpc name_to_hash name []

dialled : Rpc ℕ (List ℕ)
dialled = (connect_peer sockets name_to_hash "one" "10.0.0.2" "two" (system "one")).1

went_through :
    connect_peer sockets name_to_hash "one" "10.0.0.2" "two" (system "one") ≡ (ok tt, dialled)
unfolding dialled connect_peer ◌>>=◌ new_rpc add_peer lookup
went_through = refl

no_connection : established (lookup 1 (system "two").network.peers) ≢ some 1
unfolding new_rpc lookup
no_connection e = cc

connect_peer-accept_connection_example :
    (established (lookup 2 dialled.network.peers) ≡ some 1)
    × ((accept_connection (dialled.world ++ 7 ∷ []) (system "two")).0 ≡ ok (7 ∷ []))
    × (established
          (lookup 1 (accept_connection (dialled.world ++ 7 ∷ []) (system "two")).1.network.peers)
        ≡ some 1)
unfolding new_rpc dialled
connect_peer-accept_connection_example =
    connect_peer-accept_connection sockets lossless name_to_hash "one" "10.0.0.2" "two" tt (7 ∷ [])
      (system "one") dialled (system "two") refl (omega arith) went_through no_connection
