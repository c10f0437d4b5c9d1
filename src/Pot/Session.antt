-- ===== src/Pot/Session.antt =====
-- The actions of a connection handler, and the parts of `sendEvent` that every pot repeats.
use passwd_pot.Common.{Bytes, ℤ, pos, atoi, List, [], ◌∷◌, ◌++◌, Option, none, some}

-- What a handler does, in order. `spawn` is `go sendEvent(user, password, ...)`; its last field
-- holds the start parameters of a PostgreSQL client, and is empty for the other pots.
pub data Act : Type 0 where
  write : Bytes → Act
  spawn : Bytes → Bytes → Bytes → Act
  close : Act

-- How a stream ends: by end of file, or by another error.
pub data ReadEnd : Type 0 where
  eof failed : ReadEnd

-- Why a handler returned. `crashed` is a panic, which no handler recovers from.
pub data End : Type 0 where
  closed_by_client read_error write_error quit crashed out_of_fuel : End

pub record Outcome : Type 0 where
  pub acts : List Act
  pub why : End

-- Some actions before those of the rest of the session.
infixr 20 ◌▸◌
abbrev pub ◌▸◌ : List Act → Outcome → Outcome
xs ▸ o = record { acts = xs ++ o.acts; why = o.why }

-- The deferred `conn.Close()`.
abbrev pub finish : End → Outcome
finish e = record { acts = close ∷ []; why = e }

-- The clock and `net.LookupAddr`; `none` is an error.
pub record Surroundings : Type 0 where
  pub now : ℤ
  pub lookup_addr : Bytes → Option (List Bytes)

-- `strconv.Atoi(...)`, with 0 for text that is no number.
unfoldable pub sender_port : Bytes → ℤ
unfolding atoi
sender_port text = elim (atoi text) [ none ↦ pos 0 | some n ↦ n ]

-- The name of an address: the first one found, or the address itself.
unfoldable pub resolved_name : Surroundings → Bytes → Bytes
resolved_name w addr = elim (w.lookup_addr addr) [
  | none ↦ addr
  | some [] ↦ addr
  | some (name ∷ _) ↦ name
]
