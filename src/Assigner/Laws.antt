-- ===== src/Assigner/Laws.antt =====
-- internal/proxy/assigner.go: an assigner that is built can assign.
use cloud_agent_sandbox.Base.{◌≡◌, ◌≢◌, refl, inl, inr, [], Text, bytes, text_eq, arith}
use cloud_agent_sandbox.Base.Dict.{Dict}
use cloud_agent_sandbox.Base.Int.{ℤ}
use cloud_agent_sandbox.Session.Model.{ok}
use cloud_agent_sandbox.Steps.{Ends, bind-Ends, from, pure, Result-cases}
use cloud_agent_sandbox.Manager.World.{Assignment}
use cloud_agent_sandbox.Kube.Model.{Answer, found, missing, failed}
use cloud_agent_sandbox.Assigner.{
  Secrets, ServiceAssigner, cert_of, assign, assigner_with, read_ca_cert, new_service_assigner,
}

cert_of_nonempty : (a : Answer (Dict Text)) (c : Text) → cert_of a ≡ ok c → c ≢ []
unfolding cert_of
cert_of_nonempty missing c h = absurd cc
cert_of_nonempty (failed e) c h = absurd cc
cert_of_nonempty (found m) c h = ground (arith, h, text_eq.beq_iff c [])

-- An assigner with a certificate never fails to assign, and gives that certificate.
assign_total :
    (a : ServiceAssigner)
    → a.ca_cert ≢ []
    → (r : Assignment) × (assign a ≡ ok r) × (r.ca_cert ≡ a.ca_cert)
unfolding assign
assign_total a n = (
  record { endpoint = a.endpoint; ca_cert = a.ca_cert; proxy_id = bytes "mitmproxy-pool" },
  ground (arith, n, text_eq.beq_iff a.ca_cert []),
  refl,
)

cert_ends :
    {P : Type 0} (a : Answer (Dict Text)) (p : P)
    → Ends (from (cert_of a) p) (λ q c. c ≢ []) (λ q e. Unit {0})
cert_ends a p = elim (Result-cases (cert_of a)) [
  | inl (c, h) ↦ rw h record { outcome = cert_of_nonempty a c h }
  | inr (x, h) ↦ rw h record { outcome = tt }
]

-- An assigner that NewServiceAssigner gives back has a certificate, so that it never fails to assign.
new_service_assigner_lem :
    {P : Type 0} (s : Secrets P) (service : Text) (port : ℤ) (namespace : Text) (p : P)
    → Ends
        (new_service_assigner s service port namespace p)
        (λ q a. a.ca_cert ≢ [])
        (λ q e. Unit {0})
unfolding new_service_assigner read_ca_cert assigner_with
new_service_assigner_lem s service port namespace p =
    bind-Ends (λ q c. c ≢ []) (read_ca_cert s)
      (λ ca. pure (assigner_with service port namespace ca)) p (cert_ends (s.get p).1 (s.get p).0)
      (λ c q n. record { outcome = n })
