-- ===== src/Rag/Composer/Nested.antt =====
-- What the check leaves of a bracket that holds another one.
use mathlib.Core.List.{append_assoc, append-nil, reverse, reverse-cons}
use freshet.Prelude.{
  ℕ, ◌≡◌, refl, sym, ap, ◌∙◌, Bool, true, none, List, [], ◌∷◌, ◌++◌, arith, Bool-cases, inl, inr,
}
use freshet.Pipeline.Chunking.{is_space, lstrip}
use freshet.Rag.Composer.{
  cited_id, all_chars, id_shaped, Allowed, bracketed, keep, outside, inside, substitute,
  verify_citations, without_trailing, trailing,
}
use freshet.Rag.Composer.Citations.{contents, no_bracket, contents-bracketed, all_chars-append}

all_chars-lstrip :
    (p : ℕ → Bool) (xs : List ℕ) → all_chars p xs ≡ true → all_chars p (lstrip xs) ≡ true
unfolding all_chars lstrip
all_chars-lstrip p [] h = refl
all_chars-lstrip p (x ∷ xs) h = elim (Bool-cases (is_space x)) [
  | inl space ↦ rw space (all_chars-lstrip p xs (ground arith))
  | inr letter ↦ rw letter h
]

all_chars-reverse :
    (p : ℕ → Bool) (xs : List ℕ) → all_chars p xs ≡ true → all_chars p (reverse xs) ≡ true
unfolding all_chars
all_chars-reverse p [] h = refl
all_chars-reverse p (x ∷ xs) h = rw (reverse-cons x xs) (
    all_chars-append p (reverse xs) (x ∷ []) (all_chars-reverse p xs (ground arith)) (ground arith))

all_chars-without_trailing :
    (p : ℕ → Bool) (xs : List ℕ) → all_chars p xs ≡ true → all_chars p (without_trailing xs) ≡ true
all_chars-without_trailing p xs h =
    all_chars-reverse p (lstrip (reverse xs))
      (all_chars-lstrip p (reverse xs) (all_chars-reverse p xs h))

module _ (allowed : Allowed) where
  substitute-held :
      (lead held text rest : List ℕ)
      → all_chars no_bracket text ≡ true
      → substitute allowed (inside lead held) (text ++ rest)
        ≡ substitute allowed (inside lead (held ++ text)) rest
  unfolding substitute all_chars
  substitute-held lead held [] rest h =
      ap (λ l. substitute allowed (inside lead l) rest) (sym (append-nil held))
  substitute-held lead held (c ∷ text) rest h = ground (
    arith,
    substitute-held lead (held ++ c ∷ []) text rest (ground arith),
    append_assoc held (c ∷ []) text,
  )

  substitute-plain :
      (lead text : List ℕ)
      → all_chars no_bracket text ≡ true
      → substitute allowed (outside lead) (text ++ (b']' ∷ [])) ≡ lead ++ (text ++ (b']' ∷ []))
  unfolding substitute all_chars is_space
  substitute-plain lead [] h = refl
  substitute-plain lead (c ∷ text) h = elim (Bool-cases (is_space c)) [
    | inl space ↦ ground (
      arith,
      space,
      substitute-plain (lead ++ (c ∷ [])) text (ground arith),
      append_assoc lead (c ∷ []) (text ++ (b']' ∷ [])),
    )
    | inr letter ↦ ground (arith, letter, substitute-plain [] text (ground arith))
  ]

  substitute-closed :
      (lead content text : List ℕ)
      → id_shaped (cited_id content) ≡ true
      → allowed (cited_id content) ≡ none
      → all_chars no_bracket text ≡ true
      → substitute allowed (inside lead content) (b']' ∷ (text ++ (b']' ∷ [])))
        ≡ text ++ (b']' ∷ [])
  unfolding substitute keep
  substitute-closed lead content text shaped missing h =
      rw (shaped, missing) (substitute-plain [] text h)

  substitute-reopened :
      (content text : List ℕ)
      → substitute allowed (inside [] content) (b'[' ∷ text)
        ≡ b'['
          ∷ (without_trailing content ++ substitute allowed (inside (trailing content) []) text)
  unfolding substitute
  substitute-reopened content text = refl

  substitute-opened :
      (text : List ℕ)
      → substitute allowed (outside []) (b'[' ∷ text) ≡ substitute allowed (inside [] []) text
  unfolding substitute
  substitute-opened text = refl

  contents-alone :
      (content : List ℕ)
      → all_chars no_bracket content ≡ true
      → contents none (bracketed content) ≡ content ∷ []
  unfolding contents
  contents-alone content h =
      ap (contents none) (sym (append-nil (bracketed content))) ∙ contents-bracketed content [] h

  -- For an answer that is one bracket with one other bracket in it, a citation that is not in the
  -- evidence: that one is dropped with the whitespace before it, and the rest of the outer bracket is
  -- joined to one bracket that was not checked, whatever id that is.
  pub verify_citations_nested :
      (before inner after : List ℕ)
      → all_chars no_bracket before ≡ true
      → all_chars no_bracket inner ≡ true
      → all_chars no_bracket after ≡ true
      → id_shaped (cited_id inner) ≡ true
      → allowed (cited_id inner) ≡ none
      → contents none (
          verify_citations allowed
            (b'[' ∷ (before ++ (b'[' ∷ (inner ++ (b']' ∷ (after ++ (b']' ∷ []))))))))
        ≡ (without_trailing before ++ after) ∷ []
  unfolding verify_citations
  verify_citations_nested before inner after hb hi ha shaped missing =
      ap (contents none) written
      ∙ contents-alone (without_trailing before ++ after) (
          all_chars-append no_bracket (without_trailing before) after
            (all_chars-without_trailing no_bracket before hb) ha)
    where
      text : List ℕ
      text = inner ++ (b']' ∷ (after ++ (b']' ∷ [])))

      inner_dropped : substitute allowed (inside (trailing before) []) text ≡ after ++ (b']' ∷ [])
      inner_dropped =
          substitute-held (trailing before) [] inner (b']' ∷ (after ++ (b']' ∷ []))) hi
          ∙ substitute-closed (trailing before) inner after shaped missing ha

      written :
          substitute allowed (outside []) (b'[' ∷ (before ++ (b'[' ∷ text)))
          ≡ bracketed (without_trailing before ++ after)
      written =
          substitute-opened (before ++ (b'[' ∷ text))
          ∙ substitute-held [] [] before (b'[' ∷ text) hb
          ∙ substitute-reopened before text
          ∙ ap (λ l. b'[' ∷ (without_trailing before ++ l)) inner_dropped
          ∙ ap (λ l. b'[' ∷ l) (sym (append_assoc (without_trailing before) after (b']' ∷ [])))
