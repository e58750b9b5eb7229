-- ===== src/Tests/Ids.antt =====
-- Canonical ids at concrete references.
use cloud_agent_sandbox.Base.{◌≡◌, refl, Text, bytes, arith, take, list_beq}
use cloud_agent_sandbox.Strings.{trim_byte, trim_left_byte}
use cloud_agent_sandbox.Session.Id.{
  canonical_id, hex_encode, slugify, collapse, halve_dashes, has_double_dash, slug_of,
}
use cloud_agent_sandbox.Session.Id.Laws.{IsLabel, canonical_id_collides}
use cloud_agent_sandbox.Kube.Pod.{pod_name, pvc_name, ca_secret_name}
use cloud_agent_sandbox.Kube.Pod.Names.{canonical_names-IsLabel}

-- Stands for a hash of 32 bytes.
abbrev hash : Text → Text
hash t = bytes "0123456789abcdef0123456789abcdef"

abbrev reference : Text
reference = bytes "--Agent  One!"

canonical_names-IsLabel_example :
    IsLabel 63 (pod_name (canonical_id hash reference))
    × IsLabel 63 (pvc_name (canonical_id hash reference))
    × IsLabel 63 (ca_secret_name (canonical_id hash reference))
    × IsLabel 51 (canonical_id hash reference)
canonical_names-IsLabel_example = canonical_names-IsLabel hash reference (λ t. refl) (ground arith)

slug_test : slug_of reference ≡ bytes "agent-one"
unfolding slug_of slugify trim_byte trim_left_byte collapse halve_dashes has_double_dash list_beq
slug_test = refl

-- Two references with the same slug and the same hash.
same_ids : canonical_id hash (bytes "agent one") ≡ canonical_id hash (bytes "Agent-One")
unfolding canonical_id slug_of slugify trim_byte trim_left_byte collapse halve_dashes
    has_double_dash list_beq
same_ids = refl

canonical_id_collides_example :
    take 10 (hex_encode (hash (bytes "agent one")))
    ≡ take 10 (hex_encode (hash (bytes "Agent-One")))
canonical_id_collides_example =
    canonical_id_collides hash (λ t. refl) (bytes "agent one") (bytes "Agent-One") same_ids
