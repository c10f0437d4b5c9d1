-- ===== src/Resolver/Service.antt =====
-- resolver/geoipc.go: the client of the geo service, as the resolver's way to locate an address.
use passwd_pot.Common.{codes, ℕ, ℤ, Bytes, Option, ◌++◌, Result, ok, err}
use passwd_pot.Resolver.Location.{Geo}
use passwd_pot.Resolver.{Err, History, Env}

-- The answer of the service: the stream of its body, which may break with an error.
pub record Response : Type 0 where
  pub status : ℕ
  pub body : Bytes
  pub breaks : Option Err

-- `http.Get`, `json.Decoder.Decode` of a stream into a `Geo`, and `time.Now`.
pub record Http : Type 0 where
  pub get : History → Bytes → Result Err Response
  pub decode : Bytes → Option Err → Result Err Geo
  pub now : History → ℤ

-- `c.URL + "/json/" + ip`
abbrev pub location_url : Bytes → Bytes → Bytes
location_url url ip = url ++ (codes "/json/" ++ ip)

-- `GetLocationForAddr`. The status of the answer is not looked at.
unfoldable pub get_location_for_addr : Http → Bytes → Bytes → History → Result Err Geo
get_location_for_addr http url ip h = elim (http.get h (location_url url ip)) [
  | err e ↦ err e
  | ok res ↦ elim (http.decode res.body res.breaks) [
    | err e ↦ err e
    | ok loc ↦ ok (record loc { last_update = http.now h })
  ]
]

-- The resolver with such a client (`SetGeoClient`).
abbrev pub with_service : Http → Bytes → Env → Env
with_service http url env = record env { locate = λ h ip. get_location_for_addr http url ip h }
