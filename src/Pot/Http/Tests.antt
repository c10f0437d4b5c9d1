-- ===== src/Pot/Http/Tests.antt =====
-- Requests to cmd/http/http.go, with text that encodes itself.
use passwd_pot.Common.{Bytes, codes, [], some, ◌≡◌, refl, arith}
use passwd_pot.Pot.Http.{Request, handle_request, refusal}
use passwd_pot.Pot.Http.Basic.{handle_request-captured}

abbrev request : Bytes → Request
request header = record {
  remote_addr = codes "10.0.0.1:4711";
  user_agent = codes "curl";
  authorization = header;
  forwarded_for = [];
}

captured_example :
    handle_request some (request (codes "Basic joe:a:b"))
    ≡ (some (codes "joe", codes "a:b"), refusal)
captured_example =
    handle_request-captured (λ b. b) some (λ b. refl) (request (codes "Basic joe:a:b"))
      (codes "Basic") (codes "joe") (codes "a:b") (ground arith) (ground arith) refl
