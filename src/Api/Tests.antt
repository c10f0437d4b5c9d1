-- ===== src/Api/Tests.antt =====
-- Instants of events in JSON.
use passwd_pot.Common.{negsuc, some, ◌≡◌, arith}
use passwd_pot.Api.Time.{unmarshal_json, marshal_json, unmarshal_json-marshal_json}

time_example : unmarshal_json (marshal_json (negsuc 1999999)) ≡ some (negsuc 1999999)
time_example = unmarshal_json-marshal_json (negsuc 1999999) (omega arith)
