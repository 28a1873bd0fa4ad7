-- ===== src/TlsAcceptor/Tests.antt =====
-- A client that connects while its certificate comes in.
use drawbridge_ingress.Prelude.{ℕ, ◌≡◌, refl, Option, none, some, List, [], ◌∷◌, All, Among}
use drawbridge_ingress.Prelude.Maps.{String, lookup, string_eq}
use drawbridge_ingress.Ingress.Certificates.{CertKey, CertificateState, resolve_server_config}
use drawbridge_ingress.TlsAcceptor.{
  Rustls, TlsAcceptor, new, accept, finish, poll_accept, Reachable, begins, steps, accepts,
  finishes, polls, changes,
}
use drawbridge_ingress.TlsAcceptor.Delivered.{delivered-Certified}

-- A socket is the name that its client sends, and a stream the configuration with the name.
abbrev rustls : Rustls String (List ℕ) (List ℕ × String)
rustls = record { start = λ name. some (some name); into_stream = λ name cfg. some (cfg, name) }

abbrev config : List (List ℕ) → List ℕ → Option (List ℕ)
config certs key = some key

abbrev State : Type 0
State = CertificateState (List ℕ)

abbrev empty : State
empty = record { certs = []; challenges = [] }

abbrev with_cert : State
with_cert = record {
  certs = ("a.com", record { certs = []; private_key = 7 ∷ []; certified_key = [] }) ∷ [];
  challenges = [];
}

abbrev served : TlsAcceptor String (List ℕ × String) State
served = record {
  tasks = [];
  channel = [];
  accepted = "a.com" ∷ [];
  resolver = with_cert;
  earlier = empty ∷ [];
  delivered = (7 ∷ [], "a.com") ∷ [];
}

served-Reachable : Reachable rustls (resolve_server_config config) empty served
unfolding new accept finish poll_accept resolve_server_config lookup
served-Reachable =
    steps
      (steps
        (steps (steps (steps begins (accepts none)) (accepts (some (some "a.com"))))
          (changes with_cert))
        (finishes [] "a.com" [] refl))
      polls

delivered-Certified_example :
    All
      (λ stream.
        (socket : String) × (state : State) × Among socket ("a.com" ∷ [])
        × Among state (with_cert ∷ empty ∷ [])
        × ((name : String) × (cert : CertKey (List ℕ)) × (cfg : List ℕ) × (rustls.start socket
              ≡ some (some name))
            × (lookup name state.certs ≡ some cert)
            × (config cert.certs cert.private_key ≡ some cfg)
            × (rustls.into_stream socket cfg ≡ some stream)))
      ((7 ∷ [], "a.com") ∷ [])
delivered-Certified_example = delivered-Certified rustls config empty served served-Reachable
