-- ===== src/Eval/LiveRetrieval.antt =====
-- freshet/eval/live_retrieval.py: the choice of the queries and the scoring of rankings. A mean of
-- reciprocal ranks is left as the ranks; a timestamp is a number.
pub mod Rankings
pub mod Queries
use freshet.Prelude.{
  ℕ, suc, String, Bool, false, ◌&&◌, ◌||◌, not, Option, none, some, List, [], ◌∷◌, ◌++◌, map, ltb,
  leb, ◌==◌, str_eq, get_or, if◌then◌else◌, length, take, select,
}
use freshet.Prelude.Sort.{sort_by}
use freshet.Prelude.Table.{Table, find, put}

unfoldable pub is_member : String → List String → Bool
is_member e [] = false
is_member e (x ∷ xs) = str_eq x e || is_member e xs

-- `grouped.setdefault(incident_id, []).append((event_id, ts))` for each row
unfoldable pub group :
    List (String × String × ℕ) → Table (List (String × ℕ)) → Table (List (String × ℕ))
group [] grouped = grouped
group ((incident_id, event_id, ts) ∷ rows) grouped =
    group rows
      (put incident_id (get_or (find incident_id grouped) [] ++ (event_id, ts) ∷ []) grouped)

-- `events_by_incident`, on the rows of its query
unfoldable pub events_by_incident : List (String × String × ℕ) → Table (List (String × ℕ))
events_by_incident rows = group rows []

-- `{event_id for event_id, _ in updates}`, without repetition
unfoldable pub distinct_ids : List (String × ℕ) → List String
distinct_ids [] = []
distinct_ids ((e, ts) ∷ rest) =
    let others = distinct_ids rest in if is_member e others then others else e ∷ others

pub record Candidate : Type 0 where
  pub incident_id : String
  pub query_event_id : String
  pub other_event_ids : List String

module _ (text_le : String → String → Bool) where
  -- `key=lambda pair: (pair[1], pair[0])`, by the order of texts
  unfoldable pub no_later : String × ℕ → String × ℕ → Bool
  no_later a b = ltb a.1 b.1 || (a.1 == b.1 && text_le a.0 b.0)

  -- `min`: the first of the least
  unfoldable pub earliest : String × ℕ → List (String × ℕ) → String × ℕ
  earliest best [] = best
  earliest best (u ∷ rest) = earliest (if no_later best u then best else u) rest

  -- What the loop of `eligible_candidates` appends for one incident.
  unfoldable pub candidate : String → List (String × ℕ) → List Candidate
  candidate incident_id [] = []
  candidate incident_id (u ∷ rest) =
      if ltb (length (distinct_ids (u ∷ rest))) 2
      then []
      else record {
        incident_id = incident_id;
        query_event_id = (earliest u rest).0;
        other_event_ids =
            select (λ e. not (str_eq e (earliest u rest).0)) (distinct_ids (u ∷ rest));
      }
        ∷ []

  unfoldable pub candidates_of : Table (List (String × ℕ)) → List Candidate
  candidates_of [] = []
  candidates_of ((incident_id, updates) ∷ rest) =
      candidate incident_id updates ++ candidates_of rest

  -- `eligible_candidates`
  unfoldable pub eligible_candidates : Table (List (String × ℕ)) → List Candidate
  eligible_candidates grouped =
      candidates_of (sort_by (λ (a b : String × List (String × ℕ)). text_le a.0 b.0) grouped)

-- `capped`
unfoldable pub capped : {A : Type 0} → List A → Option ℕ → List A
capped candidates none = candidates
capped candidates (some cap) = take cap candidates

-- The loop of `dedupe_events`; `excluded` is `h.event_id == exclude`.
unfoldable pub dedupe : (String → Bool) → List String → List String → List String
dedupe excluded [] seen = seen
dedupe excluded (e ∷ hits) seen =
    dedupe excluded hits
      (if not (excluded e) && not (is_member e seen) then seen ++ e ∷ [] else seen)

abbrev pub is_excluded : Option String → String → Bool
is_excluded none e = false
is_excluded (some x) e = str_eq e x

-- `dedupe_events`, on the events of the hits
unfoldable pub dedupe_events : List String → Option String → List String
dedupe_events hits exclude = dedupe (is_excluded exclude) hits []

-- `next((i + 1 for i, e in enumerate(...) if e in cause_ids), None)`, with `i + 1`
unfoldable pub rank_from : ℕ → List String → List String → Option ℕ
rank_from i [] causes = none
rank_from i (e ∷ rest) causes =
    let later = rank_from (suc i) rest causes in if is_member e causes then some i else later

pub record Score : Type 0 where
  pub rank : Option ℕ
  pub hit_at_k : Bool
  pub top1_cite : Bool

abbrev pub within : ℕ → Option ℕ → Bool
within k none = false
within k (some r) = leb r k

abbrev pub first_is_cause : List String → List String → Bool
first_is_cause [] causes = false
first_is_cause (e ∷ _) causes = is_member e causes

-- `score_one`; the reciprocal of `rank` is the source's `mrr`
unfoldable pub score_one : List String → List String → ℕ → Score
score_one ranked causes k = record {
  rank = rank_from 1 ranked causes;
  hit_at_k = within k (rank_from 1 ranked causes);
  top1_cite = first_is_cause ranked causes;
}

unfoldable pub count_true : List Bool → ℕ
count_true [] = 0
count_true (b ∷ bs) = if b then suc (count_true bs) else count_true bs

pub record Aggregate : Type 0 where
  pub n : ℕ
  pub hits : ℕ
  pub top1 : ℕ
  pub ranks : List (Option ℕ)

-- `aggregate`, with the sums that are divided by `n`
unfoldable pub aggregate : List Score → Aggregate
aggregate records = record {
  n = length records;
  hits = count_true (map (λ r. r.hit_at_k) records);
  top1 = count_true (map (λ r. r.top1_cite) records);
  ranks = map (λ r. r.rank) records;
}
