-- ===== src/Pot/Http/Basic.antt =====
-- cmd/http/http.go against a client that sends credentials.
use passwd_pot.Common.{inl, inr, ◌⊎◌, Bytes, [], ◌∷◌, ◌++◌, Option, none, some, ◌≡◌, Lacks, split_2}
use passwd_pot.Common.Strings.Laws.{cut-append, cut-Lacks}
use passwd_pot.Pot.Http.{Request, credentials, process_auth, handle_request, refusal}

split_2-append : (sep : _) (p q : Bytes) → Lacks sep p → split_2 sep (p ++ sep ∷ q) ≡ p ∷ q ∷ []
unfolding split_2
split_2-append sep p q h = rw (cut-append sep p q h, split_2)

split_2-Lacks : (sep : _) (s : Bytes) → Lacks sep s → split_2 sep s ≡ s ∷ []
unfolding split_2
split_2-Lacks sep s h = rw (cut-Lacks sep s h, split_2)

-- Credentials of any scheme are captured and refused: the user is what stands before the first
-- colon of the decoded text, which holds one, and the password all behind it. The scheme holds no
-- space, and the encoding is undone by the decoder.
pub handle_request-captured :
    (encode : Bytes → Bytes) (decode : Bytes → Option Bytes)
    → ((b : Bytes) → decode (encode b) ≡ some b)
    → (r : Request) (scheme user password : Bytes) → Lacks 32 scheme
    → Lacks 58 user
    → r.authorization ≡ scheme ++ 32 ∷ encode (user ++ 58 ∷ password)
    → handle_request decode r ≡ (some (user, password), refusal)
unfolding handle_request process_auth credentials
handle_request-captured encode decode undone r scheme user password hs hu sent =
    let parts = split_2-append 32 scheme (encode (user ++ 58 ∷ password)) hs in
    let pair = split_2-append 58 user password hu in
    rw sent (rw (parts, process_auth) (rw undone (rw (pair, credentials))))

-- A header that holds no space, or whose second word does not decode, or decodes to text with no
-- colon.
abbrev pub NoCredentials : (Bytes → Option Bytes) → Bytes → Type 0
NoCredentials decode header =
    Lacks 32 header
    ⊎ ((scheme : Bytes) × (word : Bytes) × Lacks 32 scheme
        × (header ≡ scheme ++ 32 ∷ word)
        × ((decode word ≡ none) ⊎ ((text : Bytes) × (decode word ≡ some text) × Lacks 58 text)))

-- A request is refused all the same, and no event is sent, if its header holds no space, if its
-- second word does not decode, or if the decoded text holds no colon.
pub handle_request-ignored :
    (decode : Bytes → Option Bytes) (r : Request)
    → NoCredentials decode r.authorization
    → handle_request decode r ≡ (none, refusal)
unfolding handle_request process_auth credentials
handle_request-ignored decode r (inl one_word) =
    rw (split_2-Lacks 32 r.authorization one_word, process_auth)
handle_request-ignored decode r (inr (scheme, word, hs, sent, inl bad)) =
    rw sent (rw (split_2-append 32 scheme word hs, process_auth) (rw bad))
handle_request-ignored decode r (inr (scheme, word, hs, sent, inr (text, good, ht))) = rw sent (
    rw (split_2-append 32 scheme word hs, process_auth)
      (rw good (rw (split_2-Lacks 58 text ht, credentials))))
