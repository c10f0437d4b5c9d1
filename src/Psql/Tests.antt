-- ===== src/Psql/Tests.antt =====
-- cmd/psql/buf.go with concrete bytes.
use passwd_pot.Common.{pos, pos, negsuc, codes, [], ◌∷◌, ◌++◌, ◌≡◌, some, arith, length, drop}
use passwd_pot.Psql.ReadBuf
use passwd_pot.Psql.WriteBuf.{WriteBuf}
use passwd_pot.Psql.WriteBuf
use passwd_pot.Common.{pos, Bytes, ◌<◌, ◌^◌}
use passwd_pot.Psql.Bounds.{ReadsNext, Reads, ReadsString, IsByte, every_read_exact}
use passwd_pot.Psql.RoundTrip.{FitsInt32, reads_back}

abbrev started_buf : WriteBuf
started_buf = record { buf = 82 ∷ 0 ∷ 0 ∷ 0 ∷ 0 ∷ []; pos = 1 }

reads_back_example :
    (ReadBuf.int32
        (drop (length started_buf.buf) (WriteBuf.int32 started_buf (negsuc 4)).buf ++ 7 ∷ [])
      ≡ some (negsuc 4, 7 ∷ []))
    × (ReadBuf.int16
          (drop (length started_buf.buf) (WriteBuf.int16 started_buf (pos 300)).buf ++ 7 ∷ [])
        ≡ some (300, 7 ∷ []))
    × (ReadBuf.string
          (drop (length started_buf.buf) (WriteBuf.string started_buf (codes "user")).buf ++ 7 ∷ [])
        ≡ some (codes "user", 7 ∷ []))
reads_back_example =
    reads_back started_buf (negsuc 4) 300 (codes "user") (7 ∷ []) (omega arith) (omega arith)
      (ground arith)

-- A length, the user's key and no terminating zero byte.
abbrev received : Bytes
received = 0 ∷ 0 ∷ 0 ∷ 8 ∷ codes "user"

every_read_example :
    Reads FitsInt32 4 received (ReadBuf.int32 received)
    × Reads (λ x. x < 2 ^ 32) 4 received (ReadBuf.oid received)
    × Reads (λ x. x < 2 ^ 16) 2 received (ReadBuf.int16 received)
    × Reads IsByte 1 received (ReadBuf.byte received)
    × ReadsNext (pos 9) received (ReadBuf.next (pos 9) received)
    × ReadsString received (ReadBuf.string received)
every_read_example = every_read_exact (pos 9) received (ground arith)
