-- ===== src/Resolver/Location.antt =====
-- resolver/types.go: the location of an address.
use passwd_pot.Common.{
  ℕ, ℤ, pos, negsuc, Bytes, bytes_eq, Bool, true, false, ◌&&◌, ◌==◌, ltb, ◌≡◌, arith, ◌↔◌,
  bytes_eq_iff,
}

-- A latitude or longitude is a decimal number that a JSON text gave, scaled to an integer; it is
-- finite, so that `==` on floats is equality. An instant counts nanoseconds.
pub record Geo : Type 0 where
  pub id : ℕ
  pub ip : Bytes
  pub last_update : ℤ
  pub country_code : Bytes
  pub region_code : Bytes
  pub region_name : Bytes
  pub city : Bytes
  pub time_zone : Bytes
  pub latitude : ℤ
  pub longitude : ℤ
  pub metro_code : ℕ

unfoldable pub int_eq : ℤ → ℤ → Bool
int_eq (pos m) (pos n) = m == n
int_eq (negsuc m) (negsuc n) = m == n
int_eq _ _ = false

-- `t.Before(u)`
unfoldable pub before : ℤ → ℤ → Bool
before (pos m) (pos n) = ltb m n
before (pos m) (negsuc n) = false
before (negsuc m) (pos n) = true
before (negsuc m) (negsuc n) = ltb n m

unfoldable pub equals : Geo → Geo → Bool
unfolding int_eq
equals g another =
    bytes_eq g.country_code another.country_code
    && (bytes_eq g.city another.city
        && (int_eq g.latitude another.latitude
            && (int_eq g.longitude another.longitude
                && (g.metro_code == another.metro_code
                    && (bytes_eq g.region_name another.region_name
                        && (bytes_eq g.region_code another.region_code
                            && (bytes_eq g.time_zone another.time_zone
                                && bytes_eq g.ip another.ip)))))))

int_eq_sound : (m n : ℤ) → int_eq m n ≡ true → m ≡ n
unfolding int_eq
int_eq_sound (pos m) (pos n) h = ground arith
int_eq_sound (pos m) (negsuc n) h = cc
int_eq_sound (negsuc m) (pos n) h = cc
int_eq_sound (negsuc m) (negsuc n) h = ground arith

int_eq_refl : (n : ℤ) → int_eq n n ≡ true
unfolding int_eq
int_eq_refl (pos n) = ground arith
int_eq_refl (negsuc n) = ground arith

int_eq_iff : (m n : ℤ) → (int_eq m n ≡ true) ↔ (m ≡ n)
int_eq_iff m n = (int_eq_sound m n, λ e. rw e (int_eq_refl n))

-- The parts of a location that `equals` compares: all but the id and the time of the last update.
pub record SameLocation (g another : Geo) : Type 0 where
  pub ip : g.ip ≡ another.ip
  pub country_code : g.country_code ≡ another.country_code
  pub region_code : g.region_code ≡ another.region_code
  pub region_name : g.region_name ≡ another.region_name
  pub city : g.city ≡ another.city
  pub time_zone : g.time_zone ≡ another.time_zone
  pub latitude : g.latitude ≡ another.latitude
  pub longitude : g.longitude ≡ another.longitude
  pub metro_code : g.metro_code ≡ another.metro_code

module _ (g another : Geo) where
  equals_sound : equals g another ≡ true → SameLocation g another
  unfolding equals
  equals_sound h = ground (
    arith,
    bytes_eq_iff g.country_code another.country_code,
    bytes_eq_iff g.city another.city,
    bytes_eq_iff g.region_name another.region_name,
    bytes_eq_iff g.region_code another.region_code,
    bytes_eq_iff g.time_zone another.time_zone,
    bytes_eq_iff g.ip another.ip,
    int_eq_iff g.latitude another.latitude,
    int_eq_iff g.longitude another.longitude,
  )

  equals_complete : SameLocation g another → equals g another ≡ true
  unfolding equals
  equals_complete s = ground (
    arith,
    bytes_eq_iff g.country_code another.country_code,
    bytes_eq_iff g.city another.city,
    bytes_eq_iff g.region_name another.region_name,
    bytes_eq_iff g.region_code another.region_code,
    bytes_eq_iff g.time_zone another.time_zone,
    bytes_eq_iff g.ip another.ip,
    int_eq_iff g.latitude another.latitude,
    int_eq_iff g.longitude another.longitude,
  )

-- Two locations are equal for the resolver exactly if they agree in all but the id and the time of
-- the last update.
pub equals_iff : (g another : Geo) → (equals g another ≡ true) ↔ SameLocation g another
equals_iff g another = (equals_sound g another, equals_complete g another)
