-- ===== src/Rag/Composer/Citations.antt =====
-- What the brackets of a text hold, and what is a checked citation.
pub mod Checked
use mathlib.Core.List.{append_assoc, append-nil}
use freshet.Prelude.{
  ℕ, ◌≡◌, refl, sym, ap, ◌∙◌, Bool, true, false, ◌&&◌, ◌||◌, not, Option, none, some, List, [], ◌∷◌,
  ◌++◌, ◌==◌, if◌then◌else◌, arith, ◌⊎◌,
}
use freshet.Pipeline.Chunking.{is_space}
use freshet.Rag.Composer.{
  cited_id, is_id_char, all_chars, id_shaped, Allowed, bracketed, stamped_id,
}

-- What the brackets of a text hold, innermost pairs only; first what the open bracket holds so far.
unfoldable pub contents : Option (List ℕ) → List ℕ → List (List ℕ)
contents open' [] = []
contents none (c ∷ rest) = contents (if c == b'[' then some [] else none) rest
contents (some content) (c ∷ rest) =
    let closed = contents none rest in
    let further = contents (some (if c == b'[' then [] else content ++ c ∷ [])) rest in
    if c == b']' then content ∷ closed else further

abbrev pub no_bracket : ℕ → Bool
no_bracket c = not (c == b'[' || c == b']')

contents-plain :
    (text rest : List ℕ)
    → all_chars no_bracket text ≡ true
    → contents none (text ++ rest) ≡ contents none rest
unfolding contents all_chars
contents-plain [] rest h = refl
contents-plain (c ∷ text) rest h = ground (arith, contents-plain text rest (ground arith))

contents-held :
    (held text rest : List ℕ)
    → all_chars no_bracket text ≡ true
    → contents (some held) (text ++ rest) ≡ contents (some (held ++ text)) rest
unfolding contents all_chars
contents-held held [] rest h = ap (λ l. contents (some l) rest) (sym (append-nil held))
contents-held held (c ∷ text) rest h = ground (
  arith,
  contents-held (held ++ c ∷ []) text rest (ground arith),
  append_assoc held (c ∷ []) text,
)

pub contents-bracketed :
    (content rest : List ℕ)
    → all_chars no_bracket content ≡ true
    → contents none (bracketed content ++ rest) ≡ content ∷ contents none rest
unfolding contents
contents-bracketed content rest h =
    ap (contents (some [])) (append_assoc content (b']' ∷ []) rest)
    ∙ contents-held [] content (b']' ∷ rest) h

pub all_chars-append :
    (p : ℕ → Bool) (xs ys : List ℕ)
    → all_chars p xs ≡ true
    → all_chars p ys ≡ true
    → all_chars p (xs ++ ys) ≡ true
unfolding all_chars
all_chars-append p [] ys hx hy = hy
all_chars-append p (x ∷ xs) ys hx hy = ground (arith, all_chars-append p xs ys (ground arith) hy)

-- A bracket that is a citation is one of the evidence, with its time.
abbrev pub IsVerified : Allowed → List ℕ → Type 0
IsVerified allowed content =
    (id_shaped (cited_id content) ≡ false)
    ⊎ ((cited stamp : List ℕ) × (allowed cited ≡ some stamp) × (content ≡ stamped_id cited stamp))

-- No bracket is opened in an open bracket.
unfoldable pub is_flat : Bool → List ℕ → Bool
is_flat open' [] = true
is_flat false (c ∷ rest) = is_flat (c == b'[') rest
is_flat true (c ∷ rest) = not (c == b'[') && is_flat (not (c == b']')) rest

id_char_plain : (cs : List ℕ) → all_chars is_id_char cs ≡ true → all_chars no_bracket cs ≡ true
unfolding all_chars
id_char_plain [] h = refl
id_char_plain (c ∷ cs) h = ground (arith, id_char_plain cs (ground arith))

id_shaped_plain : (i : List ℕ) → id_shaped i ≡ true → all_chars no_bracket i ≡ true
unfolding id_shaped all_chars
id_shaped_plain [] h = refl
id_shaped_plain (c ∷ cs) h = ground (arith, id_char_plain cs (ground arith))

space_plain : (c : ℕ) → is_space c ≡ true → no_bracket c ≡ true
unfolding is_space
space_plain c h = ground arith
