-- ===== src/Potter/Client.antt =====
-- cmd/potter.go and cmd/proxy.go: the client that events are given to, and the dry runs.
use passwd_pot.Common.{ℕ, Bool, List, Option, none, some, Result, ok, err, if◌then◌else◌}
use passwd_pot.Api.{Event, BatchEventResponse, empty_response}
use passwd_pot.Resolver.{Err}
use passwd_pot.ApiClient.{Services, record_event, record_batch_events}

-- `api.Transporter`: the HTTP client, or the client of a dry run.
pub data Transporter : Type 1 where
  dry_run_client : Transporter
  event_client : Services → Transporter

-- The choice of `runPotter`, and that of `proxyrun`, at the client that `api.New` makes of the
-- server, which without options gives no error.
abbrev pub choose : Bool → Services → Transporter
choose dry_run s = if dry_run then dry_run_client else event_client s

-- `RecordEvent` of either.
unfoldable pub transport_event : Transporter → Event → Result Err ℕ
unfolding record_event
transport_event dry_run_client event = ok 0
transport_event (event_client s) event = record_event s event

-- `RecordBatchEvents` of either; `none` is a panic.
unfoldable pub transport_batch : Transporter → List Event → Option (Result Err BatchEventResponse)
unfolding record_batch_events
transport_batch dry_run_client events = some (ok empty_response)
transport_batch (event_client s) events = record_batch_events s events

-- `Send` of a `potterClient`, in its goroutine: the error that it logs.
unfoldable pub send : Transporter → Event → Option Err
unfolding transport_event
send c event = elim (transport_event c event) [ ok _ ↦ none | err e ↦ some e ]
