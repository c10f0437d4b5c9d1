-- ===== src/Pot/Lines.antt =====
-- A line of a text protocol: a verb, and words behind it.
use passwd_pot.Common.{
  length, length-append, Option-cases, inl, inr, ◌<◌, ap, ◌∙◌, sym, trim_right, ℕ, Bytes, Bool,
  true, false, ◌||◌, ◌==◌, List, [], ◌∷◌, ◌++◌, Option, none, some, ◌≡◌, ◌≢◌, refl, arith, All,
  Lacks, split, trim, All-append, cut, append_assoc,
}
use passwd_pot.Common.Strings.Laws.{
  cut_sound, split-Lacks, split-append, cut-append, trim_right-append, trim_right-append-All,
  trim_left-cons, trim_right-cons,
}

-- The cutset "\r \n".
unfoldable pub is_blank : ℕ → Bool
is_blank c = c == 13 || (c == 32 || c == 10)

-- `line = strings.Trim(line, "\r \n"); strings.Split(line, " ")`
unfoldable pub words : Bytes → List Bytes
unfolding is_blank trim split
words line = split 32 (trim is_blank line)

-- `reader.ReadString('\n')` on a stream: the line with its newline, and what is left.
unfoldable pub read_string : Bytes → Option (Bytes × Bytes)
unfolding cut
read_string s = elim (cut 10 s) [ none ↦ none | some (line, rest) ↦ some (line ++ 10 ∷ [], rest) ]

-- A byte that no line is cut or trimmed at.
abbrev pub IsWordByte : ℕ → Type 0
IsWordByte c = (c ≢ 13) × (c ≢ 32) × (c ≢ 10)

-- A word of at least one byte.
abbrev pub IsWord : Bytes → Type 0
IsWord [] = ⊥
IsWord (c ∷ s) = IsWordByte c × All IsWordByte s

pub word-not_blank : (s : Bytes) → All IsWordByte s → All (λ c. is_blank c ≡ false) s
unfolding is_blank
word-not_blank [] h = tt
word-not_blank (c ∷ s) (hc, hs) = (ground arith, word-not_blank s hs)

pub word-Lacks_space : (s : Bytes) → All IsWordByte s → Lacks 32 s
word-Lacks_space [] h = tt
word-Lacks_space (c ∷ s) (hc, hs) = (hc.1, word-Lacks_space s hs)

pub word-Lacks_newline : (s : Bytes) → All IsWordByte s → Lacks 10 s
word-Lacks_newline [] h = tt
word-Lacks_newline (c ∷ s) (hc, hs) = (hc.2, word-Lacks_newline s hs)

-- "\r\n"
abbrev pub crlf : Bytes
crlf = 13 ∷ 10 ∷ []

-- A verb and a word, as a client writes them.
abbrev pub line_of : Bytes → Bytes → Bytes
line_of verb word = verb ++ 32 ∷ (word ++ crlf)

crlf_blank : All (λ c. is_blank c ≡ true) crlf
unfolding is_blank
crlf_blank = (refl, (refl, tt))

-- Trimming a line takes off its end, and nothing else, if its ends are not blank.
trim_line :
    (a : ℕ) (s : Bytes) (c : ℕ) (t : Bytes)
    → is_blank a ≡ false
    → All (λ d. is_blank d ≡ false) (c ∷ t)
    → trim is_blank ((a ∷ s) ++ ((c ∷ t) ++ crlf)) ≡ (a ∷ s) ++ (c ∷ t)
unfolding trim
trim_line a s c t ha h =
    ap (trim_right is_blank) (
      trim_left-cons is_blank a (s ++ ((c ∷ t) ++ crlf)) ha
      ∙ sym (append_assoc (a ∷ s) (c ∷ t) crlf))
    ∙ trim_right-append-All is_blank ((a ∷ s) ++ (c ∷ t)) crlf crlf_blank
    ∙ trim_right-append is_blank (a ∷ s) c t h

trim_verb :
    (a : ℕ) (s : Bytes)
    → All (λ d. is_blank d ≡ false) (a ∷ s)
    → trim is_blank ((a ∷ s) ++ crlf) ≡ a ∷ s
unfolding trim
trim_verb a s h =
    ap (trim_right is_blank) (trim_left-cons is_blank a (s ++ crlf) h.0)
    ∙ trim_right-append-All is_blank (a ∷ s) crlf crlf_blank
    ∙ trim_right-cons is_blank a s h

-- A verb and a word are taken apart into just these.
pub words-line_of :
    (verb word : Bytes) → IsWord verb → IsWord word → words (line_of verb word) ≡ verb ∷ word ∷ []
unfolding words
words-line_of [] word hv hw = absurd hv
words-line_of (v ∷ vs) [] hv hw = absurd hw
words-line_of (v ∷ vs) (c ∷ cs) hv hw =
    let trimmed : trim is_blank (line_of (v ∷ vs) (c ∷ cs)) ≡ (v ∷ vs) ++ 32 ∷ (c ∷ cs) =
      ap (trim is_blank) (sym (append_assoc (v ∷ vs) (32 ∷ []) ((c ∷ cs) ++ crlf)))
      ∙ trim_line v (vs ++ 32 ∷ []) c cs (word-not_blank (v ∷ vs) hv).0 (word-not_blank (c ∷ cs) hw)
      ∙ append_assoc (v ∷ vs) (32 ∷ []) (c ∷ cs) in
    ap (split 32) trimmed
    ∙ split-append 32 (v ∷ vs) (c ∷ cs) (word-Lacks_space (v ∷ vs) hv)
    ∙ ap (λ ps. (v ∷ vs) ∷ ps) (split-Lacks 32 (c ∷ cs) (word-Lacks_space (c ∷ cs) hw))

-- A verb alone is a verb with no argument.
pub words-verb : (verb : Bytes) → IsWord verb → words (verb ++ crlf) ≡ verb ∷ []
unfolding words
words-verb [] h = absurd h
words-verb (v ∷ vs) h =
    ap (split 32) (trim_verb v vs (word-not_blank (v ∷ vs) h))
    ∙ split-Lacks 32 (v ∷ vs) (word-Lacks_space (v ∷ vs) h)

-- The first line of a stream is read whole, and the rest stays.
pub read_string-append :
    (line rest : Bytes)
    → Lacks 10 line
    → read_string (line ++ 10 ∷ rest) ≡ some (line ++ 10 ∷ [], rest)
unfolding read_string
read_string-append line rest h = rw (cut-append 10 line rest h, read_string)

pub word_line-Lacks :
    (verb word : Bytes)
    → All IsWordByte verb
    → All IsWordByte word
    → Lacks 10 (verb ++ 32 ∷ (word ++ 13 ∷ []))
word_line-Lacks verb word hv hw =
    All-append _ verb (32 ∷ (word ++ 13 ∷ [])) (word-Lacks_newline verb hv)
      (omega arith, All-append _ word (13 ∷ []) (word-Lacks_newline word hw) (omega arith))

-- A line whose newline is its last byte is read whole.
read_whole :
    (line text rest : Bytes)
    → text ≡ line ++ 10 ∷ []
    → Lacks 10 line
    → read_string (text ++ rest) ≡ some (text, rest)
read_whole line text rest e h =
    ap read_string (ap (λ (s : Bytes). s ++ rest) e ∙ append_assoc line (10 ∷ []) rest)
    ∙ read_string-append line rest h
    ∙ ap (λ (s : Bytes). some (s, rest)) (sym e)

-- A line of a client ends in its only newline.
pub line_of_whole :
    (verb word : Bytes) → line_of verb word ≡ (verb ++ 32 ∷ (word ++ 13 ∷ [])) ++ 10 ∷ []
line_of_whole verb word = simp append_assoc

pub verb_whole : (verb : Bytes) → verb ++ crlf ≡ (verb ++ 13 ∷ []) ++ 10 ∷ []
verb_whole verb = simp append_assoc

pub verb-Lacks : (verb : Bytes) → All IsWordByte verb → Lacks 10 (verb ++ 13 ∷ [])
verb-Lacks verb hv = All-append _ verb (13 ∷ []) (word-Lacks_newline verb hv) (omega arith)

-- A line that a client writes is read whole.
pub read_string-line_of :
    (verb word rest : Bytes)
    → All IsWordByte verb
    → All IsWordByte word
    → read_string (line_of verb word ++ rest) ≡ some (line_of verb word, rest)
read_string-line_of verb word rest hv hw =
    read_whole (verb ++ 32 ∷ (word ++ 13 ∷ [])) (line_of verb word) rest (line_of_whole verb word)
      (word_line-Lacks verb word hv hw)

pub read_string-verb :
    (verb rest : Bytes)
    → All IsWordByte verb
    → read_string ((verb ++ crlf) ++ rest) ≡ some (verb ++ crlf, rest)
read_string-verb verb rest hv =
    read_whole (verb ++ 13 ∷ []) (verb ++ crlf) rest (verb_whole verb) (verb-Lacks verb hv)

-- Reading a line takes at least its newline from the stream.
pub length-read_string :
    (s line rest : Bytes) → read_string s ≡ some (line, rest) → length rest < length s
unfolding read_string
length-read_string s line rest h = elim (Option-cases (cut 10 s)) [
  | inl e ↦ ground arith
  | inr ((p, q), e) ↦
      let (whole, _) = cut_sound 10 s p q e in
      omega (arith, ap (length {0}) whole, length-append p (10 ∷ q), length_rest p q e)
]
  where
    length_rest : (p q : Bytes) → cut 10 s ≡ some (p, q) → length rest ≡ length q
    length_rest p q e = ground arith
