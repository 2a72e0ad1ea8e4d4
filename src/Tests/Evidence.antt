-- ===== src/Tests/Evidence.antt =====
-- Retrieval, citations and the feed parser on small inputs.
use freshet.Prelude.{
  ℕ, ◌≤◌, ◌≡◌, refl, String, true, false, not, none, some, List, [], ◌∷◌, ◌++◌, All, if◌then◌else◌,
  str_eq, length, map, ◌==◌, subst, get_or, Bool-cases, inl, inr,
}
use freshet.Prelude.Fraction.{Fraction}
use freshet.Prelude.Sort.Laws.{IsSorted, count}
use freshet.Rag.Retrieval.{
  Row, hybrid_search, no_worse, hit_no_worse, reciprocal_rank_fusion, none_left, centered_sims,
}
use freshet.Rag.Retrieval.Fusion.{is_ranked_in, reciprocal_rank_fusion-IsSorted}
use freshet.Rag.Retrieval.Abstention.{sims, any_reaches, hybrid_search-abstains}
use freshet.Ingest.Statuspage.{World, parse_when, ordinals}
use freshet.Ingest.Statuspage.Stamps.{IsNear, parse_when-IsNear}
use freshet.Ingest.Statuspage.Identity.{bump, ordinals-prepend}
use freshet.Pipeline.Chunking.{strip, lstrip, is_space}
use freshet.Rag.Composer.{
  Allowed, verify_citations, all_chars, id_shaped, cited_id, take_id, ends_id, any_char,
}
use freshet.Rag.Composer.Citations.{IsVerified, no_bracket, contents, is_flat}
use freshet.Rag.Composer.Citations.Checked.{verify_citations-IsVerified}
use freshet.Rag.Composer.Nested.{verify_citations_nested}

abbrev arms : List (List String)
arms = ("a" ∷ "b" ∷ []) ∷ ("b" ∷ "c" ∷ []) ∷ []

reciprocal_rank_fusion-IsSorted_example :
    IsSorted no_worse (reciprocal_rank_fusion arms 60)
    × ((c : String)
        → count (λ (e : String × Fraction). str_eq e.0 c) (reciprocal_rank_fusion arms 60)
          ≡ (if is_ranked_in c arms then 1 else 0))
reciprocal_rank_fusion-IsSorted_example = reciprocal_rank_fusion-IsSorted arms 60

abbrev row : String → ℕ → Row
row c similarity = record {
  chunk_id = c;
  event_id = c;
  service = "zoom";
  ts = 0;
  indexed_at = 0;
  source = "status";
  text = "";
  type_name = "incident";
  title = none;
  similarity = similarity;
  centered_similarity = none;
}

hybrid_search-abstains_example :
    let r = hybrid_search (row "a" 7 ∷ []) (row "b" 3 ∷ []) 1 false (some 2) 5 in
    (length r.hits ≤ 1)
    × IsSorted hit_no_worse r.hits
    × (r.abstained
        ≡ not (
            if none_left (centered_sims r.hits)
            then any_reaches 5 (sims r.hits)
            else any_reaches 2 (centered_sims r.hits)))
hybrid_search-abstains_example =
    hybrid_search-abstains (row "a" 7 ∷ []) (row "b" 3 ∷ []) 1 false (some 2) 5

ordinals-prepend_example :
    ordinals [] ("11:42" ∷ "11:42" ∷ "10:00" ∷ [])
    ≡ ("11:42", 0) ∷ map (bump "11:42") (ordinals [] ("11:42" ∷ "10:00" ∷ []))
ordinals-prepend_example = ordinals-prepend "11:42" ("11:42" ∷ "10:00" ∷ [])

-- A feed that was revised on the second day of a year, with a stamp of the last day of a year.
abbrev new_year : World
new_year = record {
  has_doctype = λ feed. false;
  entries = λ feed. some [];
  plain = λ t. t;
  lower = λ t. t;
  when_groups =
      λ t. some (record { mon = "Dec"; day_of_month = 31; hour = 23; minutes = 0; tz = "UTC" });
  blocks = λ t. [];
  single = λ t. none;
  without_components = λ t. t;
  clipped = λ t. t;
  datetime = λ year month day hour minutes offset. some 0;
  year_of = λ t. 2026;
  update_id = λ key. "";
  body_digest = λ body. "";
}

parse_when-IsNear_example :
    IsNear new_year "Dec 31, 23:00 UTC" 1000 (parse_when new_year "Dec 31, 23:00 UTC" 1000)
parse_when-IsNear_example = parse_when-IsNear new_year "Dec 31, 23:00 UTC" 1000

-- What starts with an e is in the evidence.
abbrev one_event : Allowed
one_event [] = none
one_event (c ∷ _) = if c == b'e' then some (b'9' ∷ []) else none

one_event-plain : (i s : List ℕ) → one_event i ≡ some s → all_chars no_bracket s ≡ true
unfolding all_chars
one_event-plain [] s e = cc
one_event-plain (c ∷ cs) s e = elim (Bool-cases (c == b'e')) [
  | inl known ↦
      let same : some (b'9' ∷ []) ≡ some s = cc in
      subst (λ o. all_chars no_bracket (get_or o []) ≡ true) same refl
  | inr unknown ↦ cc
]

-- `A [ev1] [xv1]`
abbrev answer : List ℕ
answer =
    b'A' ∷ b' ' ∷ b'[' ∷ b'e' ∷ b'v' ∷ b'1' ∷ b']' ∷ b' ' ∷ b'[' ∷ b'x' ∷ b'v' ∷ b'1' ∷ b']' ∷ []

verify_citations-IsVerified_example :
    All (IsVerified one_event) (contents none (verify_citations one_event answer))
unfolding is_flat
verify_citations-IsVerified_example =
    verify_citations-IsVerified one_event one_event-plain answer refl

-- `[ev [bad-1]1_2]` becomes `[ev1_2]`.
verify_citations_nested_example :
    contents none (
      verify_citations
        (λ _. none)
        (b'['
          ∷ ((b'e' ∷ b'v' ∷ b' ' ∷ [])
              ++ (b'['
                  ∷ ((b'b' ∷ b'a' ∷ b'd' ∷ b'-' ∷ b'1' ∷ [])
                      ++ (b']' ∷ ((b'1' ∷ b'_' ∷ b'2' ∷ []) ++ (b']' ∷ []))))))))
    ≡ ((b'e' ∷ b'v' ∷ []) ++ (b'1' ∷ b'_' ∷ b'2' ∷ [])) ∷ []
unfolding all_chars id_shaped cited_id take_id ends_id any_char strip lstrip is_space
verify_citations_nested_example =
    verify_citations_nested (λ _. none) (b'e' ∷ b'v' ∷ b' ' ∷ [])
      (b'b' ∷ b'a' ∷ b'd' ∷ b'-' ∷ b'1' ∷ []) (b'1' ∷ b'_' ∷ b'2' ∷ []) refl refl refl refl refl
