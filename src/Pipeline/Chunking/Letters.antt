-- ===== src/Pipeline/Chunking/Letters.antt =====
-- The characters of a text and of its chunks, whitespace apart.
use mathlib.Core.List.{reverse, append-nil, append_assoc, reverse-append, reverse-reverse}
use freshet.Prelude.{
  ℕ, ◌+◌, ◌≡◌, refl, sym, ap, ◌∙◌, inl, inr, Bool, true, false, ◌&&◌, not, List, [], ◌∷◌, ◌++◌, map,
  arith, ltb, leb, if◌then◌else◌, length, select, Bool-cases, ◌⊎◌,
}
use freshet.Pipeline.Chunking.{
  is_space, is_empty, unless_empty, split_from, split, join, ends_sentence, opens_sentence, cut,
  lstrip, strip, split_sentences, Packing, pack, pack_all, finish, pack_words, chunk_step,
  chunk_all, chunk_text,
}

-- The characters of a text that are no whitespace.
unfoldable pub letters : List ℕ → List ℕ
letters [] = []
letters (c ∷ cs) = if is_space c then letters cs else c ∷ letters cs

-- Of all the texts of a list, in order.
unfoldable pub all_letters : List (List ℕ) → List ℕ
all_letters [] = []
all_letters (t ∷ ts) = letters t ++ all_letters ts

letters-append : (xs ys : List ℕ) → letters (xs ++ ys) ≡ letters xs ++ letters ys
unfolding letters
letters-append [] ys = refl
letters-append (c ∷ xs) ys = elim (Bool-cases (is_space c)) [
  | inl e ↦ rw e (letters-append xs ys)
  | inr e ↦ rw (e, letters-append xs ys)
]

all_letters-append :
    (xs ys : List (List ℕ)) → all_letters (xs ++ ys) ≡ all_letters xs ++ all_letters ys
unfolding all_letters
all_letters-append [] ys = refl
all_letters-append (t ∷ xs) ys = simp (all_letters-append xs ys, append_assoc)

all_letters-unless_empty : (t : List ℕ) → all_letters (unless_empty t) ≡ letters t
unfolding all_letters letters
all_letters-unless_empty [] = refl
all_letters-unless_empty (c ∷ cs) = append-nil _

letters-space : (cs : List ℕ) → letters (b' ' ∷ cs) ≡ letters cs
unfolding letters is_space
letters-space cs = refl

letters-snoc :
    (word : List ℕ) (c : ℕ) (rest : List ℕ)
    → letters (word ++ c ∷ []) ++ letters rest ≡ letters word ++ letters (c ∷ rest)
letters-snoc word c rest =
    sym (letters-append (word ++ c ∷ []) rest)
    ∙ ap letters (append_assoc word (c ∷ []) rest)
    ∙ letters-append word (c ∷ rest)

all_letters-split_from :
    (word text : List ℕ) → all_letters (split_from word text) ≡ letters word ++ letters text
unfolding split_from
all_letters-split_from word [] =
    all_letters-unless_empty word ∙ sym (unfold letters in append-nil (letters word))
all_letters-split_from word (c ∷ rest) = elim (Bool-cases (is_space c)) [
  | inl e ↦ rw e (
      all_letters-append (unless_empty word) (split_from [] rest)
      ∙ ap (λ l. l ++ all_letters (split_from [] rest)) (all_letters-unless_empty word)
      ∙ ap (λ l. letters word ++ l) (all_letters-split_from [] rest)
      ∙ unfold letters in rw e)
  | inr e ↦ rw e (all_letters-split_from (word ++ c ∷ []) rest ∙ letters-snoc word c rest)
]

letters-join : (ws : List (List ℕ)) → letters (join ws) ≡ all_letters ws
unfolding join all_letters
letters-join [] = unfold letters in refl
letters-join (w ∷ []) = sym (append-nil (letters w))
letters-join (w ∷ v ∷ ws) =
    letters-append w (b' ' ∷ join (v ∷ ws))
    ∙ ap (λ l. letters w ++ l) (letters-space (join (v ∷ ws)) ∙ letters-join (v ∷ ws))

letters-skip : (c : ℕ) (cs : List ℕ) → is_space c ≡ true → letters (c ∷ cs) ≡ letters cs
unfolding letters
letters-skip c cs e = rw e

and_left : (a b : Bool) → (a && b) ≡ true → a ≡ true
and_left a b h = ground arith

letters_nil : (l : List ℕ) → letters [] ++ l ≡ l
unfolding letters
letters_nil l = refl

cut_here :
    (part : List ℕ) (c : ℕ) (rest : List ℕ) (parts : List (List ℕ))
    → is_space c ≡ true
    → all_letters parts ≡ letters [] ++ letters rest
    → all_letters (part ∷ parts) ≡ letters part ++ letters (c ∷ rest)
unfolding all_letters
cut_here part c rest parts space ih =
    ap (λ l. letters part ++ l) (ih ∙ letters_nil _ ∙ sym (letters-skip c rest space))

all_letters-cut :
    (before : ℕ) (part text : List ℕ)
    → all_letters (cut before part text) ≡ letters part ++ letters text
unfolding cut
all_letters-cut before part [] = unfold all_letters letters in refl
all_letters-cut before part (c ∷ []) =
    unfold all_letters in (append-nil (letters (part ++ c ∷ [])) ∙ letters-append part (c ∷ []))
all_letters-cut before part (c ∷ n ∷ rest) =
    elim (Bool-cases (is_space c && (ends_sentence before && opens_sentence n))) [
      | inl e ↦ rw e (
          cut_here part c (n ∷ rest) (cut c [] (n ∷ rest)) (and_left (is_space c) _ e)
            (all_letters-cut c [] (n ∷ rest)))
      | inr e ↦
          rw e (all_letters-cut c (part ++ c ∷ []) (n ∷ rest) ∙ letters-snoc part c (n ∷ rest))
    ]

letters-lstrip : (t : List ℕ) → letters (lstrip t) ≡ letters t
unfolding letters lstrip
letters-lstrip [] = refl
letters-lstrip (c ∷ rest) = elim (Bool-cases (is_space c)) [
  | inl e ↦ rw e (letters-lstrip rest)
  | inr e ↦ rw (e, e)
]

letters-reverse : (t : List ℕ) → letters (reverse t) ≡ reverse (letters t)
letters-reverse [] = unfold letters in refl
letters-reverse (c ∷ t) =
    ap letters (reverse-append (c ∷ []) t)
    ∙ letters-append (reverse t) (c ∷ [])
    ∙ ap (λ l. l ++ letters (c ∷ [])) (letters-reverse t)
    ∙ last (Bool-cases (is_space c))
  where
    last :
        (is_space c ≡ true) ⊎ (is_space c ≡ false)
        → reverse (letters t) ++ letters (c ∷ []) ≡ reverse (letters (c ∷ t))
    last (inl e) = unfold letters in rw e (append-nil _)
    last (inr e) = unfold letters in rw e (sym (reverse-append (c ∷ []) (letters t)))

letters-strip : (t : List ℕ) → letters (strip t) ≡ letters t
unfolding strip
letters-strip t =
    letters-reverse (lstrip (reverse (lstrip t)))
    ∙ ap reverse (letters-lstrip (reverse (lstrip t)) ∙ letters-reverse (lstrip t))
    ∙ reverse-reverse (letters (lstrip t))
    ∙ letters-lstrip t

all_letters-map-strip : (ts : List (List ℕ)) → all_letters (map strip ts) ≡ all_letters ts
unfolding all_letters
all_letters-map-strip [] = refl
all_letters-map-strip (t ∷ ts) = cc (letters-strip t, all_letters-map-strip ts)

all_letters-select :
    (ts : List (List ℕ)) → all_letters (select (λ s. not (is_empty s)) ts) ≡ all_letters ts
unfolding all_letters select letters
all_letters-select [] = refl
all_letters-select ([] ∷ ts) = all_letters-select ts
all_letters-select ((c ∷ cs) ∷ ts) = ap (λ l. letters (c ∷ cs) ++ l) (all_letters-select ts)

empty-join : (t : List ℕ) → is_empty t ≡ true → letters t ≡ []
unfolding letters
empty-join [] h = refl
empty-join (c ∷ cs) h = cc

all_letters-split_sentences : (text : List ℕ) → all_letters (split_sentences text) ≡ letters text
unfolding split_sentences
all_letters-split_sentences text = elim (Bool-cases (is_empty (join (split text)))) [
  | inl e ↦ rw e (unfold all_letters in sym (empty-join (join (split text)) e) ∙ flat)
  | inr e ↦ rw e (
      all_letters-select (map strip (cut 0 [] (join (split text))))
      ∙ all_letters-map-strip (cut 0 [] (join (split text)))
      ∙ all_letters-cut 0 [] (join (split text))
      ∙ letters_nil _
      ∙ flat)
]
  where
    flat : letters (join (split text)) ≡ letters text
    flat = letters-join (split text) ∙ all_letters-split_from [] text ∙ letters_nil _

-- What a packing holds.
abbrev held : Packing → List ℕ
held p = all_letters p.chunks ++ letters p.current

letters-finish : (p : Packing) → all_letters (finish p) ≡ held p
letters-finish p =
    all_letters-append p.chunks (unless_empty p.current)
    ∙ ap (λ l. all_letters p.chunks ++ l) (all_letters-unless_empty p.current)

held-pack : (m : ℕ) (p : Packing) (w : List ℕ) → held (pack m p w) ≡ held p ++ letters w
unfolding pack
held-pack m p w = elim (Bool-cases (is_empty p.current)) [
  | inl e ↦ rw e (
      ap (λ l. l ++ letters w)
        (sym (append-nil (all_letters p.chunks))
          ∙ ap (λ l. all_letters p.chunks ++ l) (sym (empty-join p.current e))))
  | inr e ↦ elim (Bool-cases (leb (length p.current + 1 + length w) m)) [
    | inl fits ↦
        rw (e, fits)
          (ap (λ l. all_letters p.chunks ++ l)
              (letters-append p.current (b' ' ∷ w)
                ∙ ap (λ l. letters p.current ++ l) (letters-space w))
            ∙ sym (append_assoc (all_letters p.chunks) (letters p.current) (letters w)))
    | inr full ↦
        rw (e, full)
          (ap (λ l. l ++ letters w)
            (all_letters-append p.chunks (p.current ∷ [])
              ∙ ap (λ l. all_letters p.chunks ++ l)
                  (unfold all_letters in append-nil (letters p.current))))
  ]
]

held-pack_all :
    (m : ℕ) (ws : List (List ℕ)) (p : Packing) → held (pack_all m p ws) ≡ held p ++ all_letters ws
unfolding pack_all
held-pack_all m [] p = unfold all_letters in sym (append-nil (held p))
held-pack_all m (w ∷ ws) p =
    held-pack_all m ws (pack m p w)
    ∙ ap (λ l. l ++ all_letters ws) (held-pack m p w)
    ∙ append_assoc (held p) (letters w) (all_letters ws)
    ∙ unfold all_letters in refl

held-empty : held (record { chunks = []; current = [] }) ≡ []
unfolding all_letters letters
held-empty = refl

all_letters-pack_words : (s : List ℕ) (m : ℕ) → all_letters (pack_words s m) ≡ letters s
unfolding pack_words
all_letters-pack_words s m =
    letters-finish (pack_all m (record { chunks = []; current = [] }) (split s))
    ∙ held-pack_all m (split s) (record { chunks = []; current = [] })
    ∙ ap (λ l. l ++ all_letters (split s)) held-empty
    ∙ all_letters-split_from [] s
    ∙ letters_nil _

held-chunk_step : (m : ℕ) (p : Packing) (s : List ℕ) → held (chunk_step m p s) ≡ held p ++ letters s
unfolding chunk_step
held-chunk_step m p s = elim (Bool-cases (ltb m (length s))) [
  | inl long ↦ rw long (
      unfold letters in
      append-nil (all_letters (finish p ++ pack_words s m))
      ∙ all_letters-append (finish p) (pack_words s m)
      ∙ ap (λ l. l ++ all_letters (pack_words s m)) (letters-finish p)
      ∙ ap (λ l. held p ++ l) (all_letters-pack_words s m))
  | inr short ↦ rw short (held-pack m p s)
]

held-chunk_all :
    (m : ℕ) (ss : List (List ℕ)) (p : Packing) → held (chunk_all m p ss) ≡ held p ++ all_letters ss
unfolding chunk_all
held-chunk_all m [] p = unfold all_letters in sym (append-nil (held p))
held-chunk_all m (s ∷ ss) p =
    held-chunk_all m ss (chunk_step m p s)
    ∙ ap (λ l. l ++ all_letters ss) (held-chunk_step m p s)
    ∙ append_assoc (held p) (letters s) (all_letters ss)
    ∙ unfold all_letters in refl

-- The chunks of a text, read one after the other, have its characters in its order, each as often as
-- the text has it, whitespace apart.
pub all_letters-chunk_text :
    (text : List ℕ) (max_chars : ℕ) → all_letters (chunk_text text max_chars) ≡ letters text
unfolding chunk_text
all_letters-chunk_text text m =
    letters-finish (chunk_all m (record { chunks = []; current = [] }) (split_sentences text))
    ∙ held-chunk_all m (split_sentences text) (record { chunks = []; current = [] })
    ∙ ap (λ l. l ++ all_letters (split_sentences text)) held-empty
    ∙ all_letters-split_sentences text
