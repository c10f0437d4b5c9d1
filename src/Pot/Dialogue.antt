-- ===== src/Pot/Dialogue.antt =====
-- The sessions of a text pot in which nobody is admitted.
use passwd_pot.Common.{Bytes, List, [], ◌∷◌, ◌++◌, ◌≡◌}
use passwd_pot.Pot.Session.{Act, write, spawn, close, End, crashed, out_of_fuel}

module _ (Harmless : Bytes → Type 0) (refusal : Bytes) where
  -- Some rounds of a session: harmless writes, and captures with the refusal right behind.
  abbrev pub Rounds : List Act → Type 0
  Rounds [] = Unit
  Rounds (write w ∷ acts) = Harmless w × Rounds acts
  Rounds (spawn u p x ∷ write w ∷ acts) = (w ≡ refusal) × Rounds acts
  Rounds (spawn u p x ∷ _) = ⊥
  Rounds (close ∷ acts) = ⊥

  -- A whole session: nobody is admitted, every capture is refused at once, and the connection is
  -- closed once, at the end.
  abbrev pub NeverAdmits : List Act → Type 0
  NeverAdmits [] = ⊥
  NeverAdmits (write w ∷ acts) = Harmless w × NeverAdmits acts
  NeverAdmits (spawn u p x ∷ write w ∷ acts) = (w ≡ refusal) × NeverAdmits acts
  NeverAdmits (spawn u p x ∷ _) = ⊥
  NeverAdmits (close ∷ []) = Unit
  NeverAdmits (close ∷ _ ∷ _) = ⊥

  pub Rounds-append : (xs ys : List Act) → Rounds xs → NeverAdmits ys → NeverAdmits (xs ++ ys)
  Rounds-append [] ys h k = k
  Rounds-append (write w ∷ xs) ys (hw, h) k = (hw, Rounds-append xs ys h k)
  Rounds-append (spawn u p x ∷ write w ∷ xs) ys (hw, h) k = (hw, Rounds-append xs ys h k)
  Rounds-append (spawn u p x ∷ []) ys h k = absurd h
  Rounds-append (spawn u p x ∷ spawn _ _ _ ∷ xs) ys h k = absurd h
  Rounds-append (spawn u p x ∷ close ∷ xs) ys h k = absurd h
  Rounds-append (close ∷ xs) ys h k = absurd h

-- The handler returned by itself: it did not panic, and it was not cut off.
abbrev pub Returns : End → Type 0
Returns crashed = ⊥
Returns out_of_fuel = ⊥
Returns _ = Unit
