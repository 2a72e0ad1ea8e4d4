-- ===== src/Pipeline/Embedding/Settings.antt =====
-- The embedder that is made for a kind and the settings of the environment.
use Prim.Native.String.{◌++◌ as ◌+str+◌}
use freshet.Prelude.{
  ℕ, ◌≡◌, refl, sym, subst, ap, ◌⊎◌, inl, inr, String, Bool, true, false, Option, none, some, List,
  map, str_eq, if◌then◌else◌, eq_iff, Bool-cases,
}
use freshet.Prelude.Exec.{Result, ok, err, other, Result-cases}
use freshet.Pipeline.Embedding.{
  World, Embedder, stub_embedder, bge_embedder, base_embedder, make_transformer, after_cap,
  after_load, cap_torch_threads, with_floor, with_centered, given, overridden, make_embedder,
  encode, encode_query, vec, apply_query_instruction,
}

-- What holds of the value, where there is one.
unfoldable OnOk : {A : Type 0} (P : A → Type 0) → Result A → Type 0
OnOk P (ok a) = P a
OnOk P (err x) = Unit

OnOk-map :
    {A : Type 0} {P Q : A → Type 0} (r : Result A) → ((a : A) → P a → Q a) → OnOk P r → OnOk Q r
unfolding OnOk
OnOk-map (ok a) f h = f a h
OnOk-map (err x) f h = tt

OnOk-if :
    {A : Type 0} (P : A → Type 0) (b : Bool) (r : Result A)
    → OnOk P r
    → OnOk P (if b then r else err other)
unfolding OnOk
OnOk-if P true r h = h
OnOk-if P false r h = tt

-- Without a setting, or with an empty one, the value is the default; else it is made of what the
-- setting reads as.
IsChosen : {F A : Type 0} (read : String → Result F) (make : F → A) → Option String → A → A → Type 0
IsChosen read make setting default a =
    ((setting ≡ none) × (a ≡ default))
    ⊎ (((setting ≡ some "") × (a ≡ default))
        ⊎ ((s : String) × (x : _) × (setting ≡ some s) × (read s ≡ ok x) × (a ≡ make x)))

module _ {F : Type 0} (w : World F) where
  floor-IsChosen :
      (o : Option String) (e : Embedder F)
      → OnOk
          (λ e'.
            (m : F) × (IsChosen w.float (λ x. x) o e.min_similarity m
              × (e' ≡ record e { min_similarity = m })))
          (with_floor w (given o) e)
  unfolding given with_floor OnOk IsChosen
  floor-IsChosen none e = (e.min_similarity, (inl (refl, refl), refl))
  floor-IsChosen (some s) e = elim (Bool-cases (str_eq s "")) [
    | inl empty ↦
        rw empty (e.min_similarity, (inr (inl (ap some ((eq_iff s "").0 empty), refl)), refl))
    | inr full ↦ rw full (elim (Result-cases (w.float s)) [
      | inl (x, reads) ↦ rw reads (x, (inr (inr (s, x, refl, reads, refl)), refl))
      | inr (x, fails) ↦ rw fails tt
    ])
  ]

  centered-IsChosen :
      (o : Option String) (e : Embedder F)
      → OnOk
          (λ e'.
            (c : Option F) × (IsChosen w.float some o e.min_similarity_centered c
              × (e' ≡ record e { min_similarity_centered = c })))
          (with_centered w (given o) (ok e))
  unfolding given with_centered OnOk IsChosen
  centered-IsChosen none e = (e.min_similarity_centered, (inl (refl, refl), refl))
  centered-IsChosen (some s) e = elim (Bool-cases (str_eq s "")) [
    | inl empty ↦
        rw empty
          (e.min_similarity_centered, (inr (inl (ap some ((eq_iff s "").0 empty), refl)), refl))
    | inr full ↦ rw full (elim (Result-cases (w.float s)) [
      | inl (x, reads) ↦ rw reads (some x, (inr (inr (s, x, refl, reads, refl)), refl))
      | inr (x, fails) ↦ rw fails tt
    ])
  ]

  after_load-same :
      (e : Embedder F) (r : Result (Unit {0})) → OnOk (λ e'. e' ≡ e) (after_load w e r)
  unfolding OnOk
  after_load-same e (err x) = tt
  after_load-same e (ok u) = refl

  after_cap-same : (e : Embedder F) (r : Result (Option ℕ)) → OnOk (λ e'. e' ≡ e) (after_cap w e r)
  unfolding OnOk
  after_cap-same e (err x) = tt
  after_cap-same e (ok threads) = after_load-same e (w.load e.name)

  make_transformer-same : (e : Embedder F) → OnOk (λ e'. e' ≡ e) (make_transformer w e)
  unfolding make_transformer OnOk
  make_transformer-same e =
      OnOk-if (λ e'. e' ≡ e) w.has_transformers (after_cap w e (cap_torch_threads w))
        (after_cap-same e (cap_torch_threads w))

  abbrev HasFloors : (o p : Option String) (e e' : Embedder F) → Type 0
  HasFloors o p e e' =
      (m : F) × (c : Option F) × (IsChosen w.float (λ x. x) o e.min_similarity m
        × (IsChosen w.float some p e.min_similarity_centered c
            × (e' ≡ record e { min_similarity = m; min_similarity_centered = c })))

  then_centered :
      (o p : Option String) (e : Embedder F) (r : Result (Embedder F))
      → OnOk
          (λ e'.
            (m : F) × (IsChosen w.float (λ x. x) o e.min_similarity m
              × (e' ≡ record e { min_similarity = m })))
          r
      → OnOk (HasFloors o p e) (with_centered w (given p) r)
  unfolding OnOk with_centered
  then_centered o p e (err x) h = tt
  then_centered o p e (ok e1) (m, (hm, em)) =
      subst (λ e2. OnOk (HasFloors o p e) (with_centered w (given p) (ok e2))) (sym em)
        (OnOk-map (with_centered w (given p) (ok (record e { min_similarity = m })))
          (λ e' (c, (hc, ec)). (m, c, (hm, (hc, ec))))
          (centered-IsChosen p (record e { min_similarity = m })))

  -- The floors of an embedder are those of the settings, and it encodes as it should.
  record IsMade (floor : F) (centered : Option F)
      (passages queries : List String → Result (List (List F))) (e : Embedder F) : Type 0 where
    floor_is : IsChosen w.float (λ x. x) (w.env "FRESHET_MIN_SIMILARITY") floor e.min_similarity
    centered_is :
        IsChosen w.float some
          (w.env "FRESHET_MIN_SIMILARITY_CENTERED")
          centered
          e.min_similarity_centered
    encodes : (texts : List String) → encode w e texts ≡ passages texts
    asks : (texts : List String) → encode_query w e texts ≡ queries texts

  -- The instruction stands before each question and before no passage.
  abbrev asked : String → String
  asked text = "Represent this sentence for searching relevant passages:" +str+ (" " +str+ text)

  abbrev IsStub : Embedder F → Type 0
  IsStub =
      IsMade (w.hundredths 30) none (λ texts. ok (map (vec w) texts))
        (λ texts. ok (map (vec w) texts))

  abbrev IsBge : Embedder F → Type 0
  IsBge =
      IsMade (w.hundredths 70) (some (w.hundredths 44)) (w.model "BAAI/bge-base-en-v1.5" 32)
        (λ texts. w.model "BAAI/bge-base-en-v1.5" 32 (map asked texts))

  floored-IsStub :
      (e : Embedder F)
      → HasFloors
          (w.env "FRESHET_MIN_SIMILARITY")
          (w.env "FRESHET_MIN_SIMILARITY_CENTERED")
          (stub_embedder w)
          e
      → IsStub e
  unfolding encode encode_query
  floored-IsStub e (m, c, (hm, (hc, same))) =
      subst IsStub (sym same)
        (record { floor_is = hm; centered_is = hc; encodes = λ texts. refl; asks = λ texts. refl })

  floored-IsBge :
      (e : Embedder F)
      → HasFloors
          (w.env "FRESHET_MIN_SIMILARITY")
          (w.env "FRESHET_MIN_SIMILARITY_CENTERED")
          (bge_embedder w)
          e
      → IsBge e
  unfolding encode encode_query apply_query_instruction
  floored-IsBge e (m, c, (hm, (hc, same))) =
      subst IsBge (sym same)
        (record { floor_is = hm; centered_is = hc; encodes = λ texts. refl; asks = λ texts. refl })

  based :
      (P : Embedder F → Type 0) (e : Embedder F) (r : Result (Embedder F))
      → OnOk (λ e'. e' ≡ e) r
      → ((e' : Embedder F)
          → HasFloors
              (w.env "FRESHET_MIN_SIMILARITY")
              (w.env "FRESHET_MIN_SIMILARITY_CENTERED")
              e
              e'
          → P e')
      → OnOk P (overridden w r)
  unfolding OnOk
  based P e (err x) h f = tt
  based P e (ok e1) h f =
      subst (λ e2. OnOk P (overridden w (ok e2))) (sym h)
        (OnOk-map (overridden w (ok e)) f (
          then_centered (w.env "FRESHET_MIN_SIMILARITY") (w.env "FRESHET_MIN_SIMILARITY_CENTERED") e
            (with_floor w (given (w.env "FRESHET_MIN_SIMILARITY")) e)
            (floor-IsChosen (w.env "FRESHET_MIN_SIMILARITY") e)))

  make_embedder-OnOk :
      (kind : String)
      → OnOk (λ e. ((kind ≡ "stub") × IsStub e) ⊎ ((kind ≡ "bge") × IsBge e)) (make_embedder w kind)
  unfolding make_embedder base_embedder OnOk
  make_embedder-OnOk kind = elim (Bool-cases (str_eq kind "stub")) [
    | inl is ↦ rw is (
        OnOk-map (overridden w (ok (stub_embedder w))) (λ e h. inl ((eq_iff kind "stub").0 is, h))
          (based IsStub (stub_embedder w) (ok (stub_embedder w)) refl floored-IsStub))
    | inr isnt ↦ rw isnt (elim (Bool-cases (str_eq kind "minilm")) [
      | inl is ↦ rw is tt
      | inr isnt ↦ rw isnt (elim (Bool-cases (str_eq kind "bge")) [
        | inl is ↦ rw is (
            OnOk-map (overridden w (make_transformer w (bge_embedder w)))
              (λ e h. inr ((eq_iff kind "bge").0 is, h))
              (based IsBge (bge_embedder w) (make_transformer w (bge_embedder w))
                (make_transformer-same (bge_embedder w)) floored-IsBge))
        | inr isnt ↦ rw isnt tt
      ])
    ])
  ]

  -- An embedder is made for the kinds stub and bge only. Its floors are those of the two settings,
  -- where they are set, and else those of the kind. The stub's vectors are those of the texts, for
  -- questions as well; the model is asked for the texts of passages as they are and for those of
  -- questions behind the instruction.
  make_embedder-IsMade :
      (kind : String) (e : Embedder F)
      → make_embedder w kind ≡ ok e
      → ((kind ≡ "stub") × IsStub e) ⊎ ((kind ≡ "bge") × IsBge e)
  unfolding OnOk
  make_embedder-IsMade kind e made =
      subst (OnOk (λ e'. ((kind ≡ "stub") × IsStub e') ⊎ ((kind ≡ "bge") × IsBge e'))) made
        (make_embedder-OnOk kind)
