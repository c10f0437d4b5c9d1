-- ===== src/Proxy/Fifo.antt =====
-- A list is a queue as cmd/proxy.go wants one.
use passwd_pot.Common.{Bytes, List, [], ◌∷◌, ◌++◌, Option, none, some, true, refl, length}
use passwd_pot.Proxy.{Queue}

abbrev pub first : List Bytes → Option Bytes × List Bytes
first [] = (none, [])
first (v ∷ vs) = (some v, vs)

abbrev pub fifo : Queue
fifo = record {
  Store = List Bytes;
  items = λ q. q;
  length = length;
  enqueue = λ value q. (true, q ++ value ∷ []);
  dequeue = first;
  length-items = λ q. refl;
  items-enqueue = λ value q. refl;
  dequeue-empty = λ q h. rw h (refl, refl);
  dequeue-items = λ q value values h. rw h (refl, refl);
}
