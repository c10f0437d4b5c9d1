-- ===== src/Recorder/Committed.antt =====
-- Tables in memory that take a batch: each row gets the next id.
use passwd_pot.Common.{ℕ, suc, ◌==◌, ◌≤◌, List, [], ◌∷◌, ◌≡◌, ◌∙◌, refl, arith, false}
use passwd_pot.Recorder.Columns.{Value}
use passwd_pot.Recorder.Memory.{Memory, put, memory_tables}
use passwd_pot.Recorder.Copying.{Copies, Placed, copied_row}

abbrev pub place_one : List Value → Memory → Memory
place_one vs s =
    let n = suc s.last in
    record s { last = n; events = put n (copied_row memory_tables vs n) s.events }

unfoldable pub place : List (List Value) → Memory → List ℕ × Memory
place [] s = ([], s)
place (vs ∷ rows) s = let (ids, s') = place rows (place_one vs s) in (suc s.last ∷ ids, s')

place-older :
    (rows : List (List Value)) (s : Memory) (n : ℕ)
    → n ≤ s.last
    → (place rows s).1.events n ≡ s.events n
unfolding place
place-older [] s n le = refl
place-older (vs ∷ rows) s n le =
    let other : (n == suc s.last) ≡ false = ground arith in
    place-older rows (place_one vs s) n (omega arith) ∙ rw other refl

pub place-Placed :
    (rows : List (List Value)) (s : Memory)
    → Placed memory_tables (place rows s).1 (place rows s).0 rows
unfolding place
place-Placed [] s = tt
place-Placed (vs ∷ rows) s = (
  place-older rows (place_one vs s) (suc s.last) (omega arith) ∙ ground arith,
  place-Placed rows (place_one vs s),
)

abbrev pub memory_copies : Copies memory_tables
memory_copies = record {
  commit_unsure = λ rows s. ([], s);
  commit_rows = place;
  commit-Placed = place-Placed;
}
