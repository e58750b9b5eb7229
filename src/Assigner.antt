-- ===== src/Assigner.antt =====
-- internal/proxy/assigner.go: the assignment of sandboxes to the shared proxy. The API server and
-- the generation of a key pair are an environment with a state `P`.
pub mod Laws
use cloud_agent_sandbox.Base.{
  ℕ, Bool, true, false, Option, none, some, List, [], ◌∷◌, ◌++◌, Text, bytes, ◌==◌, nat_eq, text_eq,
  if◌then◌else◌,
}
use cloud_agent_sandbox.Base.Dict.{Dict, lookup}
use cloud_agent_sandbox.Base.Int.{ℤ}
use cloud_agent_sandbox.Session.Model.{Error, message, wrap, Result, ok, err}
use cloud_agent_sandbox.Steps.{Step, ◌>>=◌, ◌>>◌, pure, fail, from, wrapped}
use cloud_agent_sandbox.Manager.World.{Assignment}
use cloud_agent_sandbox.Exec.Jobs.{itoa}
use cloud_agent_sandbox.Kube.Model.{Answer, found, missing, failed}

abbrev pub ca_secret_name : Text
ca_secret_name = bytes "mitmproxy-ca"

abbrev pub ca_cert_key : Text
ca_cert_key = bytes "mitmproxy-ca-cert.pem"

abbrev pub ca_key_key : Text
ca_key_key = bytes "mitmproxy-ca.pem"

-- What the creation of the secret answers: done, an error that is AlreadyExists, or another.
pub data Created : Type 0 where
  created already_exists : Created
  refused : Error → Created

-- The calls for the secret of the CA, which is read and written as its data, and generateCA.
pub record Secrets (P : Type 0) : Type 0 where
  pub get : P → P × Answer (Dict Text)
  pub create : Dict Text → P → P × Created
  pub generate_ca : P → P × Result (Text × Text)

-- ServiceAssigner
pub record ServiceAssigner : Type 0 where
  pub endpoint : Text
  pub ca_cert : Text

-- The certificate in the data of the secret.
unfoldable pub cert_of : Answer (Dict Text) → Result Text
cert_of missing = err (message (bytes "read CA secret "))
cert_of (failed e) = err (wrap (bytes "read CA secret ") e)
cert_of (found m) = elim (lookup ca_cert_key m) [
  | none ↦ err (message (bytes "CA secret "))
  | some c ↦ if c == [] then err (message (bytes "CA secret ")) else ok c
]

-- Assign; Release does nothing.
unfoldable pub assign : ServiceAssigner → Result Assignment
assign a =
    if a.ca_cert == []
    then err (message (bytes "proxy CA not available"))
    else ok
        (record { endpoint = a.endpoint; ca_cert = a.ca_cert; proxy_id = bytes "mitmproxy-pool" })

unfoldable pub stored : Created → Result (Unit {0})
stored created = ok tt
stored already_exists = ok tt
stored (refused e) = err (wrap (bytes "create CA secret: ") e)

unfoldable pub assigner_with : Text → ℤ → Text → Text → ServiceAssigner
assigner_with service port namespace ca = record {
  endpoint = service ++ bytes "." ++ namespace ++ bytes ".svc.cluster.local:" ++ itoa port;
  ca_cert = ca;
}

module _ {P : Type 0} (s : Secrets P) where
  abbrev ask : {A : Type 0} → (P → P × A) → Step P A
  ask f p = ((f p).0, ok (f p).1)

  -- readCACert
  unfoldable pub read_ca_cert : Step P Text
  read_ca_cert = do a ← ask s.get; from (cert_of a)

  -- NewServiceAssigner
  unfoldable pub new_service_assigner : Text → ℤ → Text → Step P ServiceAssigner
  new_service_assigner service port namespace = do
    ca ← read_ca_cert
    pure (assigner_with service port namespace ca)

  -- EnsureCASecret behind its Get.
  unfoldable pub ensure_missing : Answer (Dict Text) → Step P (Unit {0})
  ensure_missing (found m) = pure tt
  ensure_missing (failed e) = fail (wrap (bytes "check CA secret: ") e)
  ensure_missing missing = do
    pair ← wrapped (bytes "generate CA: ") s.generate_ca
    c ← ask (s.create ((ca_cert_key, pair.0) ∷ (ca_key_key, pair.1 ++ pair.0) ∷ []))
    from (stored c)

  -- EnsureCASecret
  unfoldable pub ensure_ca_secret : Step P (Unit {0})
  ensure_ca_secret = do a ← ask s.get; ensure_missing a
