-- ===== src/ApiClient/Tests.antt =====
-- The client of api/event.go with a server that answers by a table.
use passwd_pot.Common.{◌==◌, pos, codes, [], ◌∷◌, none, some, ok, refl, ◌≡◌, if◌then◌else◌, length}
use passwd_pot.Api.{Event}
use passwd_pot.ApiClient.{gzip_data, Answer, answer, Services, record_batch_events}
use passwd_pot.ApiClient.Patient.{patient}
use passwd_pot.ApiClient.Decided.{first_decisive, record_batch_events-first_decisive}
use passwd_pot.ApiClient.Attempts.{reply, Ready}

abbrev guess : Event
guess = record {
  id = 0;
  time = pos 0;
  user = codes "root";
  passwd = codes "toor";
  remote_addr = codes "10.0.0.1";
  remote_geo_id = 0;
  remote_port = pos 22;
  remote_name = [];
  remote_version = [];
  origin_addr = [];
  origin_geo_id = 0;
  application = codes "ftp-passwd-pot";
  protocol = codes "ftp";
}

-- The first tries are refused, and the third one is answered like this.
abbrev third : Answer → Services
third a = record {
  marshal_event = λ e. ok e.user;
  marshal_events = λ es. ok (codes "batch");
  gzip = record {
    write = λ b. none;
    flush = λ b. none;
    close = λ b. none;
    buffer = λ b. codes "zip";
  };
  bad_url = none;
  server = λ b n. if n == 2 then a else answer 500 [] none;
  unmarshal = λ b. record { duration = 1; rows = length b; last_id = 0 };
  max_retries = 3;
  exponential = patient 3;
  constant = patient 5;
}

zipped : (a : Answer) → gzip_data (third a).gzip (codes "batch") ≡ ok (codes "zip")
unfolding gzip_data
zipped a = refl

abbrev ready : (a : Answer) → Ready (third a) (guess ∷ [])
ready a = record {
  plain = codes "batch";
  compressed = codes "zip";
  marshalled = refl;
  packed = zipped a;
  url_fine = refl;
}

abbrev served : Answer
served = answer 202 (codes "ok") none

decided_example :
    record_batch_events (third served) (guess ∷ [])
    ≡ first_decisive (third served).unmarshal (reply (third served) (guess ∷ []) (ready served)) 5 0
decided_example = record_batch_events-first_decisive (third served) (guess ∷ []) (ready served)

-- The third try decides.
decided_third :
    first_decisive (third served).unmarshal (reply (third served) (guess ∷ []) (ready served)) 5 0
    ≡ some (ok (record { duration = 1; rows = 2; last_id = 0 }))
unfolding first_decisive
decided_third = refl
