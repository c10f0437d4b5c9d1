-- ===== src/Resolver/Table.antt =====
-- A database and a geo service that resolver/resolve.go can rely on: the calls replayed as a table.
use passwd_pot.Common.{pos, ◌+◌, Bytes, ◌==◌, bytes_eq, if◌then◌else◌, [], ◌∷◌, none, ok, length}
use passwd_pot.Resolver.Location.{Geo}
use passwd_pot.Resolver.{
  select_geo, get_location, insert_geo, touch_geo, mark_event, History, Row, found, no_rows,
  row_error, Env,
}

-- The newest row of an address.
abbrev pub newest : History → Bytes → Row
newest [] ip = no_rows
newest (insert_geo g ∷ h) ip =
    if bytes_eq g.ip ip then found (record g { id = length h + 1 }) else newest h ip
newest (touch_geo id ∷ h) ip = elim (newest h ip) [
  | found g ↦ if g.id == id then found (record g { last_update = pos 2 }) else found g
  | no_rows ↦ no_rows
  | row_error e ↦ row_error e
]
newest (select_geo a ∷ h) ip = newest h ip
newest (get_location a ∷ h) ip = newest h ip
newest (mark_event flag g id ∷ h) ip = newest h ip

abbrev pub somewhere : Bytes → Geo
somewhere ip = record {
  id = 0;
  ip = ip;
  last_update = pos 2;
  country_code = [];
  region_code = [];
  region_name = [];
  city = [];
  time_zone = [];
  latitude = pos 0;
  longitude = pos 0;
  metro_code = 0;
}

abbrev pub table : Env
table = record {
  select = newest;
  locate = λ h ip. ok (somewhere ip);
  insert = λ h g. ok (ok (length h + 1));
  touch = λ h id. none;
  mark = λ h flag g id. none;
  expire = λ h. pos 1;
}
