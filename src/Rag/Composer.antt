-- ===== src/Rag/Composer.antt =====
-- freshet/rag/composer.py: the check of the citations in what the model wrote. A text is the list
-- of its code points.
pub mod Citations
pub mod Nested
use mathlib.Core.List.{reverse}
use freshet.Prelude.{
  ℕ, Bool, true, false, ◌&&◌, ◌||◌, not, Option, none, some, List, [], ◌∷◌, ◌++◌, ltb, leb, ◌==◌,
  if◌then◌else◌, length,
}
use freshet.Pipeline.Chunking.{is_space, lstrip, strip}

-- `rest` matches `(?:\s*@\s*(?:[^\[\]]*?))?\s*`, where it holds no bracket.
unfoldable pub ends_id : List ℕ → Bool
ends_id [] = true
ends_id (c ∷ rest) = if is_space c then ends_id rest else c == b'@'

-- The second group of `_CITATION`: the least prefix that is not empty and ends an id.
unfoldable pub take_id : List ℕ → List ℕ → List ℕ
take_id read [] = read
take_id read (c ∷ rest) =
    let longer = take_id (read ++ c ∷ []) rest in if ends_id (c ∷ rest) then read else longer

-- `match.group(2).strip()`
unfoldable pub cited_id : List ℕ → List ℕ
cited_id [] = []
cited_id (c ∷ rest) = strip (take_id (c ∷ []) rest)

abbrev pub is_digit : ℕ → Bool
is_digit c = leb b'0' c && leb c b'9'

abbrev pub is_alnum : ℕ → Bool
is_alnum c = is_digit c || ((leb b'A' c && leb c b'Z') || (leb b'a' c && leb c b'z'))

-- `[\d_:\-]`
abbrev pub is_mark : ℕ → Bool
is_mark c = is_digit c || (c == b'_' || (c == b':' || c == b'-'))

-- `[A-Za-z0-9_.:\-]`
abbrev pub is_id_char : ℕ → Bool
is_id_char c = is_alnum c || (is_mark c || c == b'.')

unfoldable pub all_chars : (ℕ → Bool) → List ℕ → Bool
all_chars p [] = true
all_chars p (c ∷ cs) = p c && all_chars p cs

unfoldable pub any_char : (ℕ → Bool) → List ℕ → Bool
any_char p [] = false
any_char p (c ∷ cs) = p c || any_char p cs

-- `_ID_SHAPED`
unfoldable pub id_shaped : List ℕ → Bool
id_shaped [] = false
id_shaped (c ∷ cs) =
    is_alnum c && (ltb 1 (length cs) && (all_chars is_id_char cs && any_char is_mark (c ∷ cs)))

-- The ids of the evidence, with the texts of their times.
abbrev pub Allowed : Type 0
Allowed = List ℕ → Option (List ℕ)

abbrev pub bracketed : List ℕ → List ℕ
bracketed content = b'[' ∷ content ++ b']' ∷ []

-- `f"{cited} @ {stamp}"`
abbrev pub stamped_id : List ℕ → List ℕ → List ℕ
stamped_id cited stamp = cited ++ b' ' ∷ b'@' ∷ b' ' ∷ stamp

abbrev pub restamp : List ℕ → List ℕ → Option (List ℕ) → List ℕ
restamp lead cited none = []
restamp lead cited (some stamp) = lead ++ bracketed (stamped_id cited stamp)

-- `keep`
unfoldable pub keep : Allowed → List ℕ → List ℕ → List ℕ
keep allowed lead content =
    if id_shaped (cited_id content)
    then restamp lead (cited_id content) (allowed (cited_id content))
    else lead ++ bracketed content

-- The whitespace at the front of a text.
unfoldable pub spaces : List ℕ → List ℕ
spaces [] = []
spaces (c ∷ rest) = if is_space c then c ∷ spaces rest else []

abbrev pub without_trailing : List ℕ → List ℕ
without_trailing t = reverse (lstrip (reverse t))

abbrev pub trailing : List ℕ → List ℕ
trailing t = reverse (spaces (reverse t))

-- `_CITATION.sub(keep, answer)`, read from left to right: whether a bracket is open, the whitespace
-- before the place or before the bracket, and what the bracket holds so far. A bracket in a bracket
-- makes the outer one plain text, and the whitespace before the inner one is its own.
pub data Reading : Type 0 where
  outside : (lead : List ℕ) → Reading
  inside : (lead content : List ℕ) → Reading

unfoldable pub substitute : Allowed → Reading → List ℕ → List ℕ
substitute allowed (outside lead) [] = lead
substitute allowed (inside lead content) [] = lead ++ b'[' ∷ content
substitute allowed (outside lead) (c ∷ rest) =
    let opened = substitute allowed (inside lead []) rest in
    let spaced = substitute allowed (outside (lead ++ c ∷ [])) rest in
    let plain = substitute allowed (outside []) rest in
    if c == b'[' then opened else if is_space c then spaced else lead ++ c ∷ plain
substitute allowed (inside lead content) (c ∷ rest) =
    let reopened = substitute allowed (inside (trailing content) []) rest in
    let closed = substitute allowed (outside []) rest in
    let longer = substitute allowed (inside lead (content ++ c ∷ [])) rest in
    if c == b'['
    then lead ++ b'[' ∷ without_trailing content ++ reopened
    else if c == b']'
    then keep allowed lead content ++ closed
    else longer

-- `verify_citations`
unfoldable pub verify_citations : Allowed → List ℕ → List ℕ
verify_citations allowed answer = substitute allowed (outside []) answer

-- What the model gives: its text, and whether it stopped at `max_tokens`.
pub record Response : Type 0 where
  pub text : List ℕ
  pub is_truncated : Bool

-- ` …(truncated)`
abbrev pub truncation_mark : List ℕ
truncation_mark =
    b' ' ∷ 8230 ∷ b'(' ∷ b't' ∷ b'r' ∷ b'u' ∷ b'n' ∷ b'c' ∷ b'a' ∷ b't' ∷ b'e' ∷ b'd' ∷ b')' ∷ []

-- `AnthropicComposer.compose`; `no_evidence` is NO_EVIDENCE, which the empty evidence gives.
unfoldable pub compose : List ℕ → Bool → Allowed → Response → List ℕ
compose no_evidence has_hits allowed response =
    if not has_hits
    then no_evidence
    else if response.is_truncated
    then without_trailing (verify_citations allowed response.text) ++ truncation_mark
    else verify_citations allowed response.text
