-- ===== src/Rag/Composer/Citations/Checked.antt =====
-- What stands in brackets once the citations were checked: the check, from left to right.
use mathlib.Core.List.{append_assoc, append-nil}
use freshet.Prelude.{
  ℕ, ◌≡◌, refl, sym, subst, Bool, true, false, Option, none, some, List, [], ◌∷◌, ◌++◌, ◌==◌, All,
  arith, Bool-cases, inl, inr,
}
use freshet.Pipeline.Chunking.{is_space}
use freshet.Rag.Composer.{
  cited_id, all_chars, id_shaped, Allowed, bracketed, stamped_id, restamp, keep, Reading, outside,
  inside, substitute, verify_citations,
}
use freshet.Rag.Composer.Citations.{
  contents, no_bracket, contents-plain, contents-held, contents-bracketed, all_chars-append,
  IsVerified, is_flat, id_shaped_plain, space_plain,
}

module _ (allowed : Allowed)
    (clean : (i s : List ℕ) → allowed i ≡ some s → all_chars no_bracket s ≡ true) where
  abbrev Verified : List ℕ → Type 0
  Verified text = All (IsVerified allowed) (contents none text)

  lead-Verified :
      (lead rest : List ℕ)
      → all_chars no_bracket lead ≡ true
      → Verified rest
      → Verified (lead ++ rest)
  lead-Verified lead rest plain h =
      subst (All (IsVerified allowed)) (sym (contents-plain lead rest plain)) h

  bracketed-Verified :
      (content rest : List ℕ)
      → all_chars no_bracket content ≡ true
      → IsVerified allowed content
      → Verified rest
      → Verified (bracketed content ++ rest)
  bracketed-Verified content rest plain h hs =
      subst (All (IsVerified allowed)) (sym (contents-bracketed content rest plain)) (h, hs)

  restamp-Verified :
      (lead cited rest : List ℕ) (o : Option (List ℕ))
      → allowed cited ≡ o
      → all_chars no_bracket lead ≡ true
      → all_chars no_bracket cited ≡ true
      → Verified rest
      → Verified (restamp lead cited o ++ rest)
  restamp-Verified lead cited rest none e pl pc h = h
  restamp-Verified lead cited rest (some stamp) e pl pc h =
      subst Verified (sym (append_assoc lead (bracketed (stamped_id cited stamp)) rest)) (
        lead-Verified lead (bracketed (stamped_id cited stamp) ++ rest) pl (
          bracketed-Verified (stamped_id cited stamp) rest
            (all_chars-append no_bracket cited (b' ' ∷ b'@' ∷ b' ' ∷ stamp) pc
              (unfold all_chars in clean cited stamp e))
            (inr (cited, stamp, e, refl)) h))

  keep-Verified :
      (lead content rest : List ℕ)
      → all_chars no_bracket lead ≡ true
      → all_chars no_bracket content ≡ true
      → Verified rest
      → Verified (keep allowed lead content ++ rest)
  unfolding keep
  keep-Verified lead content rest pl pc h = elim (Bool-cases (id_shaped (cited_id content))) [
    | inl citation ↦ rw citation (
        restamp-Verified lead (cited_id content) rest (allowed (cited_id content)) refl pl
          (id_shaped_plain (cited_id content) citation) h)
    | inr prose ↦ rw prose (
        subst Verified (sym (append_assoc lead (bracketed content) rest)) (
          lead-Verified lead (bracketed content ++ rest) pl
            (bracketed-Verified content rest pc (inl prose) h)))
  ]

  abbrev IsPlain : Reading → Type 0
  IsPlain (outside lead) = all_chars no_bracket lead ≡ true
  IsPlain (inside lead content) =
      (all_chars no_bracket lead ≡ true) × (all_chars no_bracket content ≡ true)

  abbrev is_open : Reading → Bool
  is_open (outside lead) = false
  is_open (inside lead content) = true

  closes :
      (c : ℕ) (rest : List ℕ)
      → is_flat true (c ∷ rest) ≡ true
      → c == b']' ≡ true
      → is_flat false rest ≡ true
  unfolding is_flat
  closes c rest h e = ground arith

  goes_on :
      (c : ℕ) (rest : List ℕ)
      → is_flat true (c ∷ rest) ≡ true
      → c == b']' ≡ false
      → (is_flat true rest ≡ true) × (no_bracket c ≡ true)
  unfolding is_flat
  goes_on c rest h e = (ground arith, ground arith)

  not_reopened : (c : ℕ) (rest : List ℕ) → is_flat true (c ∷ rest) ≡ true → c == b'[' ≡ false
  unfolding is_flat
  not_reopened c rest h = ground arith

  snoc_plain :
      (t : List ℕ) (c : ℕ)
      → all_chars no_bracket t ≡ true
      → no_bracket c ≡ true
      → all_chars no_bracket (t ++ c ∷ []) ≡ true
  snoc_plain t c h hc = all_chars-append no_bracket t (c ∷ []) h (unfold all_chars in ground arith)

  char-Verified : (c : ℕ) (rest : List ℕ) → c == b'[' ≡ false → Verified rest → Verified (c ∷ rest)
  unfolding contents
  char-Verified c rest e h = rw e h

  held-Verified :
      (t : List ℕ) → all_chars no_bracket t ≡ true → All (IsVerified allowed) (contents (some []) t)
  held-Verified t h =
      subst (λ l. All (IsVerified allowed) (contents (some []) l)) (append-nil t)
        (subst (All (IsVerified allowed)) (sym (contents-held [] t [] h)) (unfold contents in tt))

  unclosed : (t : List ℕ) → all_chars no_bracket t ≡ true → Verified (b'[' ∷ t)
  unfolding contents
  unclosed t h = held-Verified t h

  substitute-Verified :
      (text : List ℕ) (r : Reading)
      → IsPlain r
      → is_flat (is_open r) text ≡ true
      → Verified (substitute allowed r text)
  unfolding substitute
  substitute-Verified [] (outside lead) p f =
      subst Verified (append-nil lead) (lead-Verified lead [] p (unfold contents in tt))
  substitute-Verified [] (inside lead content) (pl, pc) f =
      lead-Verified lead (b'[' ∷ content) pl (unclosed content pc)
  substitute-Verified (c ∷ rest) (outside lead) p f = elim (Bool-cases (c == b'[')) [
    | inl opening ↦ rw opening (
        substitute-Verified rest (inside lead []) (p, unfold all_chars in refl)
          (subst (λ b. is_flat b rest ≡ true) opening (unfold is_flat in f)))
    | inr other ↦ elim (Bool-cases (is_space c)) [
      | inl space ↦
          rw (other, space)
            (substitute-Verified rest (outside (lead ++ c ∷ []))
              (snoc_plain lead c p (space_plain c space))
              (subst (λ b. is_flat b rest ≡ true) other (unfold is_flat in f)))
      | inr letter ↦
          rw (other, letter)
            (lead-Verified lead (c ∷ substitute allowed (outside []) rest) p (
              char-Verified c (substitute allowed (outside []) rest) other (
                substitute-Verified rest (outside []) (unfold all_chars in refl)
                  (subst (λ b. is_flat b rest ≡ true) other (unfold is_flat in f)))))
    ]
  ]
  substitute-Verified (c ∷ rest) (inside lead content) (pl, pc) f =
      let inner = not_reopened c rest f in
      elim (Bool-cases (c == b']')) [
        | inl closing ↦
            rw (inner, closing)
              (keep-Verified lead content (substitute allowed (outside []) rest) pl pc (
                substitute-Verified rest (outside []) (unfold all_chars in refl)
                  (closes c rest f closing)))
        | inr other ↦
            rw (inner, other)
              (substitute-Verified rest (inside lead (content ++ c ∷ []))
                (pl, snoc_plain content c pc (goes_on c rest f other).1) (goes_on c rest f other).0)
      ]

  -- In an answer without a bracket inside a bracket, and where the texts of the times hold no
  -- bracket: after the check every bracket with the shape of a citation holds an id of the evidence
  -- and the time that the evidence has for it.
  pub verify_citations-IsVerified :
      (answer : List ℕ)
      → is_flat false answer ≡ true
      → All (IsVerified allowed) (contents none (verify_citations allowed answer))
  unfolding verify_citations
  verify_citations-IsVerified answer flat =
      substitute-Verified answer (outside []) (unfold all_chars in refl) flat
