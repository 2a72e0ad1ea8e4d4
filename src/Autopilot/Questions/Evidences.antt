-- ===== src/Autopilot/Questions/Evidences.antt =====
-- What a reply in a thread is made of.
use freshet.Prelude.{
  ℕ, zero, suc, ◌+◌, ◌≤◌, ◌≡◌, refl, ap, String, Bool, true, false, Option, none, some, List, [],
  ◌∷◌, ◌++◌, map, not, str_eq, if◌then◌else◌, arith, inl, inr, Bool-cases, length, length-take,
  length-map, take, select, All, is_some, ◌⊎◌, All-map,
}
use mathlib.Core.List.{append-nil}
use freshet.Prelude.Exec.{Result, ok, err}
use freshet.Prelude.Sort.Laws.{count}
use freshet.Rag.Timeframe.{infer_window}
use freshet.Rag.Retrieval.{HybridResult}
use freshet.Rag.Retrieval.Abstention.{hybrid_search-abstains}
use freshet.Autopilot.Investigate.{Update, fetch_incident_updates}
use freshet.Autopilot.Investigate.Scope.{has_row, times_used, fetch-AreInScope}
use freshet.Autopilot.Questions.{
  Evidence, Sources, max_question_chars, of_update, of_hit, thread_evidence, is_known, with_hits,
  search, reply, in_window, answer_question, is_some,
}

-- How often an event is among the evidence.
unfoldable pub times_cited : String → List Evidence → ℕ
times_cited e [] = 0
times_cited e (x ∷ xs) = (if str_eq x.event_id e then 1 else 0) + times_cited e xs

abbrev pub Among : Evidence → List Evidence → Type 0
Among x [] = ⊥
Among x (y ∷ ys) = (x ≡ y) ⊎ Among x ys

-- Evidence for a question in the thread of an incident, beside what a search found: at most eight
-- updates, each of its own incident and once, and then at most six hits of the search on other
-- events: all of those, or none where the search abstains.
pub record IsGrounded (s : Sources) (incident_id : String) (result : HybridResult)
    (evidence : List Evidence) : Type 0 where
  pub own : List Evidence
  pub hits : List Evidence
  pub parts : own ++ hits ≡ evidence
  pub few_own : length own ≤ 8
  pub own_once :
      (e : String) → times_cited e own ≤ (if has_row incident_id none e s.rows then 1 else 0)
  pub own_from :
      All
        (λ x. Among x (map of_update (fetch_incident_updates s.least s.rows incident_id none)))
        own
  pub few_hits : length hits ≤ 6
  pub others : All (λ (h : Evidence). is_known own h.event_id ≡ false) hits
  pub hits_from : All (λ h. Among h (map of_hit result.hits)) hits
  pub abstained : result.abstained ≡ true → hits ≡ []
  pub all_hits :
      result.abstained ≡ false
      → All
          (λ (h : Evidence). (is_known own h.event_id ≡ true) ⊎ Among h hits)
          (map of_hit result.hits)

own-Among :
    (n : ℕ) (us : List Update) → All (λ x. Among x (map of_update us)) (map of_update (take n us))
own-Among zero us = tt
own-Among (suc n) [] = tt
own-Among (suc n) (u ∷ us) = (
  inl refl,
  All-map (λ x. Among x (map of_update us)) (λ x. Among x (map of_update (u ∷ us)))
      (map of_update (take n us)) (λ x h. inr h) (own-Among n us),
)

select-Among : (p : Evidence → Bool) (xs : List Evidence) → All (λ h. Among h xs) (select p xs)
unfolding select
select-Among p [] = tt
select-Among p (x ∷ xs) =
    let rest =
      All-map (λ h. Among h xs) (λ h. Among h (x ∷ xs)) (select p xs) (λ h a. inr a)
        (select-Among p xs) in
    elim (Bool-cases (p x)) [ inl taken ↦ rw taken (inl refl, rest) | inr left ↦ rw left rest ]

module _ (own : List Evidence) where
  abbrev fresh : List Evidence → List Evidence
  fresh = select (λ h. not (is_known own h.event_id))

  Among-fresh :
      (h x : Evidence) (xs : List Evidence) → Among h (fresh xs) → Among h (fresh (x ∷ xs))
  unfolding select
  Among-fresh h x xs a = elim (Bool-cases (is_known own x.event_id)) [
    | inl known ↦ rw known a
    | inr new ↦ rw new (inr a)
  ]

  fresh-first :
      (x : Evidence) (xs : List Evidence)
      → is_known own x.event_id ≡ false
      → Among x (fresh (x ∷ xs))
  unfolding select
  fresh-first x xs new = rw new (inl refl)

  fresh-complete-in :
      (xs zs : List Evidence)
      → ((h : Evidence) → Among h (fresh xs) → Among h zs)
      → All (λ (h : Evidence). (is_known own h.event_id ≡ true) ⊎ Among h zs) xs
  fresh-complete-in [] zs sub = tt
  fresh-complete-in (x ∷ xs) zs sub = (
    elim (Bool-cases (is_known own x.event_id)) [
      | inl known ↦ inl known
      | inr new ↦ inr (sub x (fresh-first x xs new))
    ],
    fresh-complete-in xs zs (λ h a. sub h (Among-fresh h x xs a)),
  )

count-take : (p : Update → Bool) (n : ℕ) (us : List Update) → count p (take n us) ≤ count p us
unfolding count
count-take p zero us = omega arith
count-take p (suc n) [] = omega arith
count-take p (suc n) (u ∷ us) = omega (arith, count-take p n us)

times_cited-own :
    (e : String) (us : List Update) → times_cited e (map of_update us) ≡ times_used e us
unfolding times_cited count
times_cited-own e [] = refl
times_cited-own e (u ∷ us) =
    ap (λ n. (if str_eq u.event_id e then 1 else 0) + n) (times_cited-own e us)

thread_evidence-once :
    (s : Sources) (i e : String)
    → times_cited e (thread_evidence s i) ≤ (if has_row i none e s.rows then 1 else 0)
unfolding thread_evidence times_cited
thread_evidence-once s i e =
    let us = fetch_incident_updates s.least s.rows i none in
    let (sorted, on_time, once) = fetch-AreInScope s.least s.rows i none in
    elim (Bool-cases (str_eq i "")) [
      | inl empty ↦ rw empty (omega arith)
      | inr named ↦ rw named (
          omega (
            arith,
            times_cited-own e (take 8 us),
            count-take (λ u. str_eq u.event_id e) 8 us,
            once e,
          ))
    ]

thread_evidence-Among :
    (s : Sources) (i : String)
    → All
        (λ x. Among x (map of_update (fetch_incident_updates s.least s.rows i none)))
        (thread_evidence s i)
unfolding thread_evidence
thread_evidence-Among s i = elim (Bool-cases (str_eq i "")) [
  | inl empty ↦ rw empty tt
  | inr named ↦ rw named (own-Among 8 (fetch_incident_updates s.least s.rows i none))
]

thread_evidence-few : (s : Sources) (i : String) → length (thread_evidence s i) ≤ 8
unfolding thread_evidence
thread_evidence-few s i =
    let us = fetch_incident_updates s.least s.rows i none in
    elim (Bool-cases (str_eq i "")) [
      | inl empty ↦ rw empty (omega arith)
      | inr named ↦ rw named (omega (arith, length-map of_update (take 8 us), length-take 8 us))
    ]

length-select : (p : Evidence → Bool) (xs : List Evidence) → length (select p xs) ≤ length xs
unfolding select
length-select p [] = omega arith
length-select p (x ∷ xs) = ground (arith, length-select p xs)

select-others :
    (own xs : List Evidence)
    → All
        (λ (h : Evidence). is_known own h.event_id ≡ false)
        (select (λ h. not (is_known own h.event_id)) xs)
unfolding select
select-others own [] = tt
select-others own (x ∷ xs) = elim (Bool-cases (is_known own x.event_id)) [
  | inl known ↦ rw known (select-others own xs)
  | inr fresh ↦ rw fresh (fresh, select-others own xs)
]

search-few : (s : Sources) (q : List ℕ) (since : Option ℕ) → length (search s q since).hits ≤ 6
unfolding search
search-few s q since =
    let (few, sorted, abstains) =
      hybrid_search-abstains (s.vec_rows q since) (s.kw_rows q since) 6 (is_some since)
        s.centered_floor s.min_similarity in
    few

with_hits-IsGrounded :
    (s : Sources) (i : String) (q : List ℕ) (since : Option ℕ)
    → IsGrounded s i (search s q since) (with_hits (thread_evidence s i) (search s q since))
unfolding with_hits
with_hits-IsGrounded s i q since =
    let own = thread_evidence s i in
    let r = search s q since in
    elim (Bool-cases r.abstained) [
      | inl quiet ↦ rw quiet (record {
        own = own;
        hits = [];
        parts = append-nil own;
        few_own = thread_evidence-few s i;
        own_once = thread_evidence-once s i;
        own_from = thread_evidence-Among s i;
        few_hits = omega arith;
        others = tt;
        hits_from = tt;
        abstained = λ e. refl;
        all_hits = λ e. cc;
      })
      | inr found ↦ rw found (record {
        own = own;
        hits = select (λ h. not (is_known own h.event_id)) (map of_hit r.hits);
        parts = refl;
        few_own = thread_evidence-few s i;
        own_once = thread_evidence-once s i;
        own_from = thread_evidence-Among s i;
        few_hits =
            (omega (
              arith,
              length-select (λ h. not (is_known own h.event_id)) (map of_hit r.hits),
              length-map of_hit r.hits,
              search-few s q since,
            ));
        others = select-others own (map of_hit r.hits);
        hits_from = select-Among (λ h. not (is_known own h.event_id)) (map of_hit r.hits);
        abstained = λ e. cc;
        all_hits = λ e.
            fresh-complete-in own (map of_hit r.hits) (fresh own (map of_hit r.hits)) (λ h a. a);
      })
    ]

-- What a window that was inferred, and its label, lead to.
abbrev pub IsReply : Sources → List ℕ → String → Option ℕ → Option String → Result (List ℕ) → Type 0
IsReply s q i since window r =
    (evidence : List Evidence) × IsGrounded s i (search s q since) evidence
    × (r ≡ reply s q window evidence)

-- What `answer_question` comes to: the error of `infer_window`, or a reply.
abbrev pub IsAnswered :
    Sources → List ℕ → String → Result (Option (ℕ × String)) → Result (List ℕ) → Type 0
IsAnswered s q i (err e) r = r ≡ err e
IsAnswered s q i (ok none) r = IsReply s q i none none r
IsAnswered s q i (ok (some (since, window))) r = IsReply s q i (some since) (some window) r

in_window-IsAnswered :
    (s : Sources) (q : List ℕ) (i : String) (window : Result (Option (ℕ × String)))
    → IsAnswered s q i window (in_window s q i window)
in_window-IsAnswered s q i (err e) = refl
in_window-IsAnswered s q i (ok none) =
    (with_hits (thread_evidence s i) (search s q none), with_hits-IsGrounded s i q none, refl)
in_window-IsAnswered s q i (ok (some (since, window))) = (
  with_hits (thread_evidence s i) (search s q (some since)),
  with_hits-IsGrounded s i q (some since),
  refl,
)

-- A question in the thread of an incident is answered from at most eight updates of that incident,
-- each once, and from the hits, at most six, of the search that is told where the window of the
-- question's phrase of time begins: all those on other events, and none where the search abstains.
pub answer_question-IsAnswered :
    (s : Sources) (question : List ℕ) (i : String)
    → let q = take max_question_chars question in
      IsAnswered s q i (infer_window s.phrases q s.now) (answer_question s question i)
unfolding answer_question
answer_question-IsAnswered s question i =
    let q = take max_question_chars question in
    in_window-IsAnswered s q i (infer_window s.phrases q s.now)
