-- ===== src/Psql/Handler/Params.antt =====
-- The start parameters of a PostgreSQL client, as cmd/psql/psql.go reads them: a user name out of
-- them for the reply, and all of them for the event.
use passwd_pot.Common.{
  ℕ, zero, suc, ◌<◌, Bytes, codes, List, [], ◌∷◌, ◌++◌, some, ◌≡◌, ◌≢◌, refl, ap, ◌∙◌, arith,
  length, length-append, append_assoc, All, All-append, Lacks, split, bytes_eq, bytes_eq_iff,
}
use passwd_pot.Common.Strings.Laws.{split-append, cut-append, cut-Lacks}
use passwd_pot.Psql.Handler.{find_user, null_term, null_term_to_strings}

-- Zero-terminated words, as the protocol sends them.
abbrev pub terminated : List Bytes → Bytes
terminated [] = []
terminated (s ∷ ss) = s ++ 0 ∷ terminated ss

split-terminated :
    (ss : List Bytes) (tail : Bytes)
    → All (Lacks 0) ss
    → split 0 (terminated ss ++ tail) ≡ ss ++ split 0 tail
split-terminated [] tail h = refl
split-terminated (s ∷ ss) tail (hs, h) =
    rw append_assoc
      (split-append 0 s (terminated ss ++ tail) hs ∙ ap (λ ps. s ∷ ps) (split-terminated ss tail h))

find_user-none :
    (vs : List Bytes) (user : Bytes)
    → All (λ v. v ≢ codes "user") vs
    → find_user vs user ≡ some user
unfolding find_user
find_user-none [] user h = refl
find_user-none (v ∷ []) user (hv, h) = ground (arith, bytes_eq_iff v (codes "user"))
find_user-none (v ∷ u ∷ vs) user (hv, h) =
    ground (arith, bytes_eq_iff v (codes "user"), find_user-none (u ∷ vs) user h)

find_user-first :
    (u : Bytes) (vs : List Bytes) (user : Bytes)
    → find_user (codes "user" ∷ u ∷ vs) user ≡ find_user (u ∷ vs) u
unfolding find_user bytes_eq
find_user-first u vs user = refl

zero_words : split 0 (0 ∷ []) ≡ [] ∷ [] ∷ []
unfolding split
zero_words = refl

-- The empty words at the end of a message are no "user" either.
not_user-append :
    (vs : List Bytes)
    → All (λ v. v ≢ codes "user") vs
    → All (λ v. v ≢ codes "user") (vs ++ [] ∷ [] ∷ [])
not_user-append vs h =
    All-append (λ v. v ≢ codes "user") vs ([] ∷ [] ∷ []) h ((λ e. cc), ((λ e. cc), tt))

-- The two zero bytes at the end of a start message are two empty words.
user_words :
    (u : Bytes) (vs : List Bytes)
    → Lacks 0 u
    → All (Lacks 0) vs
    → split 0 (terminated (codes "user" ∷ u ∷ vs) ++ 0 ∷ [])
      ≡ codes "user" ∷ u ∷ (vs ++ [] ∷ [] ∷ [])
user_words u vs hu hvs =
    split-terminated (codes "user" ∷ u ∷ vs) (0 ∷ []) (omega arith, (hu, hvs))
    ∙ ap (λ (ws : List Bytes). codes "user" ∷ u ∷ (vs ++ ws)) zero_words

-- The user name of a start message is found: it is the word behind "user", if no other word of the
-- message, the name itself included, is "user", and none holds a zero byte.
pub find_user-terminated :
    (u : Bytes) (vs : List Bytes)
    → Lacks 0 u
    → All (Lacks 0) vs
    → u ≢ codes "user"
    → All (λ v. v ≢ codes "user") vs
    → find_user (split 0 (terminated (codes "user" ∷ u ∷ vs) ++ 0 ∷ [])) [] ≡ some u
find_user-terminated u vs hu hvs nu nvs =
    rw (user_words u vs hu hvs)
      (find_user-first u _ [] ∙ find_user-none _ u (nu, not_user-append vs nvs))

-- Pairs of a key and a value as words, one behind the other.
abbrev pub words_of : List (Bytes × Bytes) → List Bytes
words_of [] = []
words_of ((k, v) ∷ ps) = k ∷ v ∷ words_of ps

-- A start message of pairs of a key and a value, in zero-terminated words with one more zero byte at
-- the end, in which `user` is the value of the key "user", and no other word is "user".
pub record NamesUser (user params : Bytes) : Type 0 where
  pub before : List (Bytes × Bytes)
  pub after : List (Bytes × Bytes)
  pub message :
      params ≡ terminated (words_of before ++ codes "user" ∷ user ∷ words_of after) ++ 0 ∷ []
  pub whole : All (Lacks 0) (words_of before ++ codes "user" ∷ user ∷ words_of after)
  pub before_others : All (λ v. v ≢ codes "user") (words_of before)
  pub user_other : user ≢ codes "user"
  pub after_others : All (λ v. v ≢ codes "user") (words_of after)

find_user-skip :
    (vs ws : List Bytes) (u user : Bytes)
    → All (λ v. v ≢ codes "user") vs
    → find_user (vs ++ codes "user" ∷ u ∷ ws) user ≡ find_user (u ∷ ws) u
unfolding find_user bytes_eq
find_user-skip [] ws u user h = refl
find_user-skip (v ∷ []) ws u user (hv, h) = refl
find_user-skip (v ∷ x ∷ vs) ws u user (hv, h) = find_user-skip (x ∷ vs) ws u _ h

-- The user name is found that the parameters have under the key "user".
pub find_user-NamesUser :
    (user params : Bytes) → NamesUser user params → find_user (split 0 params) [] ≡ some user
find_user-NamesUser user params n =
    let ws = words_of n.before in
    let vs = words_of n.after in
    let words : split 0 params ≡ ws ++ codes "user" ∷ user ∷ (vs ++ [] ∷ [] ∷ []) =
      ap (split 0) n.message
      ∙ split-terminated (ws ++ codes "user" ∷ user ∷ vs) (0 ∷ []) n.whole
      ∙ ap (λ (xs : List Bytes). (ws ++ codes "user" ∷ user ∷ vs) ++ xs) zero_words
      ∙ append_assoc ws (codes "user" ∷ user ∷ vs) ([] ∷ [] ∷ []) in
    rw words (
      find_user-skip ws (vs ++ [] ∷ [] ∷ []) user [] n.before_others
      ∙ find_user-none _ user (n.user_other, not_user-append vs n.after_others))

-- A client whose user name is "user" is reported under the next word of the message, if no word
-- behind that name is "user" again and none holds a zero byte.
pub find_user_misread :
    (next : Bytes) (vs : List Bytes)
    → Lacks 0 next
    → All (Lacks 0) vs
    → next ≢ codes "user"
    → All (λ v. v ≢ codes "user") vs
    → find_user (split 0 (terminated (codes "user" ∷ codes "user" ∷ next ∷ vs) ++ 0 ∷ [])) []
      ≡ some next
find_user_misread next vs hn hvs nn nvs =
    rw (user_words (codes "user") (next ∷ vs) (omega arith) (hn, hvs)) (
      find_user-first (codes "user") _ []
      ∙ find_user-first next _ (codes "user")
      ∙ find_user-none _ next (nn, not_user-append vs nvs))

null_term-terminated :
    (f : ℕ) (ss : List Bytes) (tail : Bytes)
    → length (terminated ss ++ tail) < f
    → All (Lacks 0) ss
    → Lacks 0 tail
    → null_term f (terminated ss ++ tail) ≡ ss
unfolding null_term
null_term-terminated zero ss tail lt h ht = absurd (omega arith)
null_term-terminated (suc f) [] tail lt h ht = rw (cut-Lacks 0 tail ht, null_term)
null_term-terminated (suc f) (s ∷ ss) tail lt (hs, h) ht =
    rw (append_assoc, cut-append 0 s (terminated ss ++ tail) hs, null_term)
      (ap (λ (ws : List Bytes). s ∷ ws)
        (null_term-terminated f ss tail
          (omega (
            arith,
            length-append s (0 ∷ (terminated ss ++ tail)),
            ap (length {0}) (append_assoc s (0 ∷ terminated ss) tail),
          ))
          h ht))

-- Zero-terminated words, none of which holds a zero byte itself, come back as they were; what
-- follows the last zero byte is dropped.
pub null_term_to_strings-terminated :
    (ss : List Bytes) (tail : Bytes)
    → All (Lacks 0) ss
    → Lacks 0 tail
    → null_term_to_strings (terminated ss ++ tail) ≡ ss
unfolding null_term_to_strings
null_term_to_strings-terminated ss tail h ht = null_term-terminated _ ss tail (omega arith) h ht
