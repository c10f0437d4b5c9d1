-- ===== src/Api/Time.antt =====
-- api/event.go: `EventTime`, the instant of an event, which JSON holds in milliseconds.
use passwd_pot.Common.{
  Bool, true, false, ℕ, zero, suc, ◌+◌, ◌-◌, ◌*◌, ◌/◌, ◌%◌, ◌^◌, ◌<◌, ltb, ℤ, pos, negsuc, Bytes,
  atoi, Option, none, some, if◌then◌else◌, ◌≡◌, refl, ap, arith,
}
use passwd_pot.Common.Decimal.RoundTrip.{print, FitsInt64, atoi-print}

abbrev pub negate : ℕ → ℤ
negate zero = pos 0
negate (suc n) = negsuc n

-- `time.Unix(ts/1000, (ts%1000)*1000000)`, in nanoseconds; `/` and `%` round to zero.
abbrev pub from_millis : ℕ → ℕ
from_millis n = n / 1000 * 10 ^ 9 + n % 1000 * 10 ^ 6

unfoldable pub unix : ℤ → ℤ
unix (pos n) = pos (from_millis n)
unix (negsuc n) = negate (from_millis (suc n))

-- `UnmarshalJSON`: the instant, or the error.
unfoldable pub unmarshal_json : Bytes → Option ℤ
unfolding atoi unix
unmarshal_json text = elim (atoi text) [ none ↦ none | some ts ↦ some (unix ts) ]

-- `UnixNano()`, an `int64`.
unfoldable pub unix_nano : ℤ → ℤ
unix_nano (pos n) = let u = n % 2 ^ 64 in if ltb u (2 ^ 63) then pos u else negsuc (2 ^ 64 - 1 - u)
unix_nano (negsuc n) =
    let u = n % 2 ^ 64 in if ltb u (2 ^ 63) then negsuc u else pos (2 ^ 64 - 1 - u)

-- `/ int64(time.Millisecond)`, which rounds to zero.
unfoldable pub to_millis : ℤ → ℤ
to_millis (pos n) = pos (n / 10 ^ 6)
to_millis (negsuc n) = negate (suc n / 10 ^ 6)

-- `MarshalJSON`
unfoldable pub marshal_json : ℤ → Bytes
unfolding print unix_nano to_millis
marshal_json t = print (to_millis (unix_nano t))

-- A value of `database/sql`, as `Scan` tells it apart.
pub data SqlValue : Type 0 where
  null : SqlValue
  time : ℤ → SqlValue
  bytes string : Bytes → SqlValue
  other : SqlValue

-- `Value`
abbrev pub value : ℤ → SqlValue
value t = time t

-- `Scan` into an instant: the instant behind it, and whether there is an error. The instant of a
-- `time.Time` is not taken over.
unfoldable pub scan : SqlValue → ℤ → ℤ × Bool
unfolding unmarshal_json
scan null t = (t, false)
scan (time _) t = (t, false)
scan (bytes v) t = elim (unmarshal_json v) [ none ↦ (t, true) | some t' ↦ (t', false) ]
scan (string v) t = elim (unmarshal_json v) [ none ↦ (t, true) | some t' ↦ (t', false) ]
scan other t = (t, false)

-- The instant without the part of a millisecond, towards the epoch.
abbrev pub whole_millis : ℤ → ℤ
whole_millis (pos n) = pos (n / 10 ^ 6 * 10 ^ 6)
whole_millis (negsuc n) = negate (suc n / 10 ^ 6 * 10 ^ 6)

from_millis-whole : (m : ℕ) → from_millis m ≡ m * 10 ^ 6
from_millis-whole m = omega arith

pub unix_nano-same : (t : ℤ) → FitsInt64 t → unix_nano t ≡ t
unfolding unix_nano
unix_nano-same (pos n) h = ground arith
unix_nano-same (negsuc n) h = ground arith

unix-negate : (m : ℕ) → unix (negate m) ≡ negate (m * 10 ^ 6)
unfolding unix
unix-negate zero = refl
unix-negate (suc m) = ap negate (from_millis-whole (suc m))

unix-to_millis : (t : ℤ) → unix (to_millis t) ≡ whole_millis t
unfolding unix to_millis
unix-to_millis (pos n) = ap pos (from_millis-whole (n / 10 ^ 6))
unix-to_millis (negsuc n) = unix-negate (suc n / 10 ^ 6)

negate-FitsInt64 : (m : ℕ) → m < 2 ^ 63 → FitsInt64 (negate m)
negate-FitsInt64 zero h = omega arith
negate-FitsInt64 (suc m) h = omega arith

to_millis-FitsInt64 : (t : ℤ) → FitsInt64 t → FitsInt64 (to_millis t)
unfolding to_millis
to_millis-FitsInt64 (pos n) h = omega arith
to_millis-FitsInt64 (negsuc n) h = negate-FitsInt64 (suc n / 10 ^ 6) (omega arith)

-- The instant of an event comes back from its JSON, before the epoch or behind it, but for the part
-- of a millisecond, which is dropped towards the epoch. In nanoseconds it fits an `int64`.
pub unmarshal_json-marshal_json :
    (t : ℤ) → FitsInt64 t → unmarshal_json (marshal_json t) ≡ some (whole_millis t)
unfolding unmarshal_json marshal_json
unmarshal_json-marshal_json t h =
    let parsed = atoi-print (to_millis t) (to_millis-FitsInt64 t h) in
    rw (unix_nano-same t h) (rw (parsed, unmarshal_json) (ap some (unix-to_millis t)))
