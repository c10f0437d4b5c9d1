-- ===== src/Pot/Client.antt =====
-- A client that guesses passwords over a text protocol, as the proofs about the pots picture it.
use passwd_pot.Common.{Bytes, codes, [], ◌∷◌, ◌++◌, All}
use passwd_pot.Pot.Lines.{IsWord, IsWordByte, line_of, crlf}

pub data Command : Type 0 where
  user : Bytes → Command
  pass : Bytes → Command
  quit_session : Command

-- The words that it sends hold no blank, and at least one byte.
abbrev pub IsClean : Command → Type 0
IsClean (user w) = IsWord w
IsClean (pass w) = IsWord w
IsClean quit_session = Unit

abbrev pub render_command : Command → Bytes
render_command (user w) = line_of (codes "USER") w
render_command (pass w) = line_of (codes "PASS") w
render_command quit_session = codes "QUIT" ++ crlf

pub IsWord-bytes : (w : Bytes) → IsWord w → All IsWordByte w
IsWord-bytes [] h = absurd h
IsWord-bytes (c ∷ w) h = h
