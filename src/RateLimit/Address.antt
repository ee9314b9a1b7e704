-- ===== src/RateLimit/Address.antt =====
-- The identity that an address budget is charged to: `clientAddress` of rate-limit.ts.
use sleeper_ff.Prelude.{◌≡◌, refl, String, some, none}
use sleeper_ff.Prelude.Text.{has_char, split, strip_prefix, join_colon}
use sleeper_ff.RateLimit.{Request, client_address}

abbrev pub from_ip : String → Request
from_ip a = record { ip = some a; remote_address = none; session_family = none; login = none }

-- Two addresses of one /64 share a budget where the address is written out, and an IPv4 address
-- reported in its mapped form is the address itself.
same_prefix :
    client_address (from_ip "2001:db8:1:2:3:4:5:6")
    ≡ client_address (from_ip "2001:db8:1:2:9:a:b:c")
unfolding client_address strip_prefix has_char split join_colon
same_prefix = refl

mapped_address : client_address (from_ip "::ffff:10.0.0.7") ≡ "10.0.0.7"
unfolding client_address strip_prefix has_char split join_colon
mapped_address = refl

-- An address written with `::` has fewer groups than its prefix has, and is not truncated.
compressed_address : client_address (from_ip "2001:db8::a") ≡ "2001:db8::a"
unfolding client_address strip_prefix has_char split join_colon
compressed_address = refl
