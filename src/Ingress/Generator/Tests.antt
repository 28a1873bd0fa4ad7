-- ===== src/Ingress/Generator/Tests.antt =====
-- A leader that obtains certificates for two hosts, and a cluster with a map of secrets.
use Prim.Native.Char.{code}
use Prim.Native.String.{◌++◌ as concat, [] as no_text, ◌∷◌ as ◌in_front◌}
use drawbridge_ingress.Prelude.{
  ℕ, zero, suc, ◌≡◌, refl, sym, ap, ◌∙◌, Bool, true, false, Option, none, some, List, [], ◌∷◌, inl,
  inr, Option-cases, All, ◌==◌, if◌then◌else◌,
}
use drawbridge_ingress.Prelude.Maps.{
  String, str_eq, lookup, insert, string_eq, lookup-insert, beq_refl,
}
use drawbridge_ingress.Prelude.Action.{Action, ok, ◌>>=◌, for_each}
use drawbridge_ingress.Letsencrypt.{LetsEncryptError}
use drawbridge_ingress.Letsencrypt.Certificate.{Certificate}
use drawbridge_ingress.Congress.Types.{leader, follower, Senator}
use drawbridge_ingress.Ingress.Certificates.{CertKey, CertificateState}
use drawbridge_ingress.Ingress.Leadership.{Views, LeadershipSystem, handle_change}
use drawbridge_ingress.Ingress.Leadership.Replication.{count, SeesOnce, take_all}
use drawbridge_ingress.Ingress.Leadership.Certified.{check, handle_change-certifies}
use drawbridge_ingress.Ingress.Generator.{
  Libraries, SecretsApi, Secret, Holding, CertData, entries_of, check_for_new_certificates,
}
use drawbridge_ingress.Ingress.Generator.Hosts.{
  check_for_new_certificates-covers, check_for_new_certificates-keeps,
}
use drawbridge_ingress.Ingress.Generator.Storing.{IsSecretsApi, ReadsBack}

-- Secrets by name.
abbrev pub Cluster : Type 0
Cluster = List (String × Secret)

abbrev pub cluster : SecretsApi Cluster
cluster = record {
  get = λ name w. lookup name w;
  replace =
      λ name secret w. elim (lookup name w) [ none ↦ none | some _ ↦ some (insert name secret w) ];
  create = λ secret w. elim (lookup secret.name w) [
    | none ↦ some (insert secret.name secret w)
    | some _ ↦ none
  ];
}

stored :
    (name : String) (secret : Secret) (w : Cluster)
    → lookup name (insert name secret w) ≡ some secret
stored name secret w = lookup-insert name name secret w ∙ rw (beq_refl name) refl

pub cluster-IsSecretsApi : IsSecretsApi cluster
cluster-IsSecretsApi = record {
  get-replace = λ name secret w w' done. elim (Option-cases (lookup name w)) [
    | inl free ↦ let no : none ≡ some w' = rw (cluster, free) at done in cc
    | inr (old, there_) ↦
        let yes : some (insert name secret w) ≡ some w' = rw (cluster, there_) at done in
        let same : insert name secret w ≡ w' = cc in
        (secret, ap (lookup name) (sym same) ∙ stored name secret w, refl)
  ];
  get-create = λ secret w w' done. elim (Option-cases (lookup secret.name w)) [
    | inl free ↦
        let yes : some (insert secret.name secret w) ≡ some w' = rw (cluster, free) at done in
        let same : insert secret.name secret w ≡ w' = cc in
        (secret, ap (lookup secret.name) (sym same) ∙ stored secret.name secret w, refl)
    | inr (old, there_) ↦ let no : none ≡ some w' = rw (cluster, there_) at done in cc
  ];
}

-- Entries of one byte each for the host, the certificate and the key.
first : List ℕ → ℕ
first [] = 0
first (b ∷ bs) = b

first_cert : List (List ℕ) → ℕ
unfolding first
first_cert [] = 0
first_cert (c ∷ cs) = first c

host_code : String → ℕ
host_code host = if str_eq host "a.com" then 1 else 2

host_of_code : ℕ → String
host_of_code n = if n == 1 then "a.com" else "b.com"

unfoldable pub to_json : List (String × CertData) → List ℕ
unfolding host_code first_cert first
to_json [] = []
to_json ((host, d) ∷ entries) =
    host_code host ∷ first_cert d.certs ∷ first d.private_key ∷ to_json entries

unfoldable pub from_slice : List ℕ → Option (List (String × CertData))
unfolding host_of_code
from_slice [] = some []
from_slice (h ∷ []) = none
from_slice (h ∷ c ∷ []) = none
from_slice (h ∷ c ∷ k ∷ bytes) =
    let rest = from_slice bytes in
    elim rest [
      | none ↦ none
      | some entries ↦
          some ((host_of_code h, record { certs = (c ∷ []) ∷ []; private_key = k ∷ [] }) ∷ entries)
    ]

-- A byte is as many letters `a`, and a `b`.
unary : ℕ → String
unary zero = "b"
unary (suc n) = concat "a" (unary n)

unfoldable pub in_unary : List ℕ → String
unfolding unary
in_unary [] = ""
in_unary (n ∷ ns) = concat (unary n) (in_unary ns)

unfoldable pub read_unary : ℕ → String → List ℕ
read_unary n no_text = []
read_unary n (c in_front cs) =
    let more = read_unary (suc n) cs in
    let next = read_unary 0 cs in if code c == 97 then more else n ∷ next

abbrev pub lib : Libraries (List ℕ)
lib = record {
  entries_to_json = to_json;
  entries_from_slice = from_slice;
  encode = in_unary;
  byte_string = λ text. some (read_unary 0 text);
  pem_certs = λ c. inr (c ∷ []);
  der_from_pem = λ k. some k;
  sign = λ certs key. some key;
  debug = λ e. "";
}

abbrev pub issue : String → Action Cluster LetsEncryptError Certificate
issue host w = (ok (record { private_key = 3 ∷ []; certificate = 5 ∷ [] }), w)

abbrev before : Holding (List ℕ) Cluster
before = record {
  certs =
      ("a.com", record { certs = (4 ∷ []) ∷ []; private_key = 2 ∷ []; certified_key = 2 ∷ [] })
      ∷ [];
  world = [];
}

abbrev pub hosts : List String
hosts = "a.com" ∷ "b.com" ∷ []

after : Holding (List ℕ) Cluster
unfolding check_for_new_certificates lookup insert
after = (check_for_new_certificates lib cluster issue hosts before).1

went_through : check_for_new_certificates lib cluster issue hosts before ≡ (ok tt, after)
unfolding check_for_new_certificates lookup insert after in_unary to_json read_unary from_slice
    ◌>>=◌ for_each
went_through = refl

read_back : ReadsBack lib (entries_of after.certs)
unfolding check_for_new_certificates lookup insert after in_unary to_json read_unary from_slice
    ◌>>=◌ for_each
read_back = record { from_slice-to_json = refl; byte_string-encode = refl }

check_for_new_certificates-covers_example :
    All (λ host. (k : CertKey (List ℕ)) × (lookup host after.certs ≡ some k)) hosts
check_for_new_certificates-covers_example =
    check_for_new_certificates-covers lib cluster issue hosts before after went_through

first_key :
    lookup "a.com" before.certs
    ≡ some (record { certs = (4 ∷ []) ∷ []; private_key = 2 ∷ []; certified_key = 2 ∷ [] })
unfolding lookup
first_key = refl

check_for_new_certificates-keeps_example :
    lookup "a.com" (check_for_new_certificates lib cluster issue hosts before).1.certs
    ≡ some (record { certs = (4 ∷ []) ∷ []; private_key = 2 ∷ []; certified_key = 2 ∷ [] })
check_for_new_certificates-keeps_example =
    check_for_new_certificates-keeps lib cluster issue hosts "a.com"
      (record { certs = (4 ∷ []) ∷ []; private_key = 2 ∷ []; certified_key = 2 ∷ [] }) before
      first_key

-- A leader without certificates, and a follower.
abbrev leading : Senator
leading = record {
  id = 1;
  role = leader;
  term = 2;
  voted_for = none;
  next_timeout = 0;
  current_leader = none;
  on_role = [];
  on_message = [];
}

abbrev ingress_as : Senator → LeadershipSystem (List ℕ)
ingress_as senator = record {
  certificate_state = record { certs = []; challenges = [] };
  current_pod_name = "one";
  senator = senator;
  cert_generator = false;
}

abbrev checking : CertificateState (List ℕ) → CertificateState (List ℕ) × Bool
checking = check lib cluster issue (λ w. []) hosts []

-- The peers of the leader.
abbrev two_peers : Views
two_peers n = record { members = 3 ∷ 2 ∷ []; senator = leading }

a_peer : SeesOnce 2 two_peers
unfolding count
a_peer n = refl

goes_through : (handle_change (λ s. s) checking leading two_peers (ingress_as leading)).2 ≡ true
unfolding handle_change check check_for_new_certificates lookup insert ◌>>=◌ for_each in_unary
    to_json read_unary
goes_through = refl

handle_change-certifies_example :
    All
      (λ host.
        (k : CertKey (List ℕ)) × (lookup host
            (take_all 2
              (handle_change (λ s. s) checking leading two_peers (ingress_as leading)).1
              (ingress_as (record leading { id = 2; role = follower }))).certificate_state.certs
          ≡ some k))
      hosts
handle_change-certifies_example =
    handle_change-certifies lib cluster issue (λ w. []) (λ s. s) leading hosts [] 2 two_peers
      (ingress_as leading) (ingress_as (record leading { id = 2; role = follower })) a_peer refl
      refl goes_through
