-- ===== src/Api.antt =====
-- api/types.go: the password event that the pots send and the servers record.
pub mod Time
mod Tests
use passwd_pot.Common.{ℕ, Bytes, ℤ, pos, negsuc, []}

-- An instant is the number of nanoseconds since the Unix epoch. Row ids and geo ids are the serial
-- keys of the database, from 1 on, with 0 for "none".
pub record Event : Type 0 where
  pub id : ℕ
  pub time : ℤ
  pub user : Bytes
  pub passwd : Bytes
  pub remote_addr : Bytes
  pub remote_geo_id : ℕ
  pub remote_port : ℤ
  pub remote_name : Bytes
  pub remote_version : Bytes
  pub origin_addr : Bytes
  pub origin_geo_id : ℕ
  pub application : Bytes
  pub protocol : Bytes

-- api/types.go: `BatchEventResponse`, whose duration is in nanoseconds.
pub record BatchEventResponse : Type 0 where
  pub duration : ℕ
  pub rows : ℕ
  pub last_id : ℕ

abbrev pub empty_response : BatchEventResponse
empty_response = record { duration = 0; rows = 0; last_id = 0 }

-- `EventGeo`, an event with the locations of its addresses; real numbers are scaled to integers.
pub record EventGeo : Type 0 where
  pub id : ℤ
  pub time : ℤ
  pub user : Bytes
  pub passwd : Bytes
  pub remote_addr : Bytes
  pub remote_port : ℤ
  pub remote_name : Bytes
  pub remote_version : Bytes
  pub remote_country : Bytes
  pub remote_city : Bytes
  pub origin_addr : Bytes
  pub origin_country : Bytes
  pub origin_city : Bytes
  pub remote_latitude : ℤ
  pub remote_longitude : ℤ
  pub origin_latitude : ℤ
  pub origin_longitude : ℤ
  pub metro_code : ℕ

-- Its zero value; the zero `time.Time` is the year 1.
abbrev pub empty_event_geo : EventGeo
empty_event_geo = record {
  id = pos 0;
  time = negsuc 62135596799999999999;
  user = [];
  passwd = [];
  remote_addr = [];
  remote_port = pos 0;
  remote_name = [];
  remote_version = [];
  remote_country = [];
  remote_city = [];
  origin_addr = [];
  origin_country = [];
  origin_city = [];
  remote_latitude = pos 0;
  remote_longitude = pos 0;
  origin_latitude = pos 0;
  origin_longitude = pos 0;
  metro_code = 0;
}
