-- ===== src/Pipeline/Chunking.antt =====
-- freshet/pipeline/chunking.py. A text is the list of its code points.
pub mod Letters
use mathlib.Core.List.{reverse}
use freshet.Prelude.{
  ℕ, ◌+◌, Bool, true, false, ◌&&◌, ◌||◌, not, List, [], ◌∷◌, ◌++◌, map, ltb, leb, ◌==◌,
  if◌then◌else◌, length, select,
}

-- `str.isspace`, and `\s` of a regular expression
unfoldable pub is_space : ℕ → Bool
is_space c =
    (leb 9 c && leb c 13)
    || ((leb 28 c && leb c 32)
        || (c == 133
            || (c == 160
                || (c == 5760
                    || ((leb 8192 c && leb c 8202)
                        || (c == 8232
                            || (c == 8233 || (c == 8239 || (c == 8287 || c == 12288)))))))))

abbrev pub is_empty : List ℕ → Bool
is_empty [] = true
is_empty (_ ∷ _) = false

abbrev pub unless_empty : List ℕ → List (List ℕ)
unless_empty [] = []
unless_empty (c ∷ cs) = (c ∷ cs) ∷ []

-- `text.split()`, with the word that is being read
unfoldable pub split_from : List ℕ → List ℕ → List (List ℕ)
split_from word [] = unless_empty word
split_from word (c ∷ rest) =
    let next = split_from [] rest in
    let longer = split_from (word ++ c ∷ []) rest in
    if is_space c then unless_empty word ++ next else longer

abbrev pub split : List ℕ → List (List ℕ)
split = split_from []

-- `" ".join(words)`
unfoldable pub join : List (List ℕ) → List ℕ
join [] = []
join (w ∷ []) = w
join (w ∷ v ∷ ws) = w ++ b' ' ∷ join (v ∷ ws)

-- `[.!?]`
unfoldable pub ends_sentence : ℕ → Bool
ends_sentence c = c == b'.' || (c == b'!' || c == b'?')

-- `[A-Z0-9"'\[(]`
unfoldable pub opens_sentence : ℕ → Bool
opens_sentence c =
    (leb b'A' c && leb c b'Z')
    || ((leb b'0' c && leb c b'9') || (c == 34 || (c == 39 || (c == 91 || c == 40))))

-- `_SENTENCE_END.split(flat)`: after `.split()` and `join` a `\s+` is one space. `before` is the
-- character before the place, `part` what was read since the last cut.
unfoldable pub cut : ℕ → List ℕ → List ℕ → List (List ℕ)
cut before part [] = part ∷ []
cut before part (c ∷ []) = (part ++ c ∷ []) ∷ []
cut before part (c ∷ n ∷ rest) =
    let after = cut c [] (n ∷ rest) in
    let longer = cut c (part ++ c ∷ []) (n ∷ rest) in
    if is_space c && (ends_sentence before && opens_sentence n) then part ∷ after else longer

unfoldable pub lstrip : List ℕ → List ℕ
lstrip [] = []
lstrip (c ∷ rest) = if is_space c then lstrip rest else c ∷ rest

-- `part.strip()`
unfoldable pub strip : List ℕ → List ℕ
strip part = reverse (lstrip (reverse (lstrip part)))

unfoldable pub split_sentences : List ℕ → List (List ℕ)
split_sentences text =
    let flat = join (split text) in
    if is_empty flat then [] else select (λ s. not (is_empty s)) (map strip (cut 0 [] flat))

-- `chunks` and `current`
pub record Packing : Type 0 where
  pub chunks : List (List ℕ)
  pub current : List ℕ

-- The body of the loop of `_pack_words`, and what that of `chunk_text` does with a sentence that
-- fits into a chunk.
unfoldable pub pack : ℕ → Packing → List ℕ → Packing
pack max_chars p piece =
    if is_empty p.current
    then record p { current = piece }
    else if leb (length p.current + 1 + length piece) max_chars
    then record p { current = p.current ++ b' ' ∷ piece }
    else record { chunks = p.chunks ++ p.current ∷ []; current = piece }

unfoldable pub pack_all : ℕ → Packing → List (List ℕ) → Packing
pack_all max_chars p [] = p
pack_all max_chars p (w ∷ ws) = pack_all max_chars (pack max_chars p w) ws

-- `if current: chunks.append(current)`
abbrev pub finish : Packing → List (List ℕ)
finish p = p.chunks ++ unless_empty p.current

-- `_pack_words`
unfoldable pub pack_words : List ℕ → ℕ → List (List ℕ)
pack_words sentence max_chars =
    finish (pack_all max_chars (record { chunks = []; current = [] }) (split sentence))

-- The body of the loop of `chunk_text`.
unfoldable pub chunk_step : ℕ → Packing → List ℕ → Packing
chunk_step max_chars p sentence =
    if ltb max_chars (length sentence)
    then record { chunks = finish p ++ pack_words sentence max_chars; current = [] }
    else pack max_chars p sentence

unfoldable pub chunk_all : ℕ → Packing → List (List ℕ) → Packing
chunk_all max_chars p [] = p
chunk_all max_chars p (s ∷ rest) = chunk_all max_chars (chunk_step max_chars p s) rest

-- DEFAULT_MAX_CHARS
abbrev pub default_max_chars : ℕ
default_max_chars = 400

unfoldable pub chunk_text : List ℕ → ℕ → List (List ℕ)
chunk_text text max_chars =
    finish (chunk_all max_chars (record { chunks = []; current = [] }) (split_sentences text))
