-- ===== src/Rag/Retrieval/Arms.antt =====
-- freshet/rag/retrieval.py: the two SQL queries of a search, on the rows of `vector_records`. The
-- distances, the text search and the order of texts are functions.
pub mod Filtered
use freshet.Prelude.{
  ℕ, String, Bool, true, ◌&&◌, ◌||◌, not, Option, none, some, List, map, ltb, leb, ◌==◌, str_eq,
  is_some, if◌then◌else◌, take, select,
}
use freshet.Prelude.Sort.{sort_by}
use freshet.Prelude.Fraction.{Fraction, fraction_leb}
use freshet.Rag.Retrieval.{Row, HybridResult, arm_k, hybrid_search}

-- The columns that both queries read.
pub record Indexed : Type 0 where
  pub chunk_id : String
  pub event_id : String
  pub service : String
  pub ts : ℕ
  pub indexed_at : ℕ
  pub source : String
  pub text : String
  pub type_name : String
  pub title : Option String

-- What the database computes for a question: the similarity of a row, the one around the centroid,
-- whether the text matches and its rank.
pub record World : Type 0 where
  pub similarity : Indexed → ℕ
  pub centered_similarity : Indexed → ℕ
  pub matches : Indexed → Bool
  pub rank : Indexed → Fraction
  pub text_le : String → String → Bool

pub record Filter : Type 0 where
  pub service : Option String
  pub since : Option ℕ
  pub exclude_event_id : Option String

abbrev pub is_service : Option String → String → Bool
is_service none service = true
is_service (some wanted) service = str_eq service wanted

abbrev pub is_since : Option ℕ → ℕ → Bool
is_since none ts = true
is_since (some since) ts = leb since ts

abbrev pub is_other : Option String → String → Bool
is_other none event_id = true
is_other (some excluded) event_id = not (str_eq event_id excluded)

-- `_where`
unfoldable pub accepts : Filter → (service : String) → (ts : ℕ) → (event_id : String) → Bool
accepts f service ts event_id =
    is_service f.service service && (is_since f.since ts && is_other f.exclude_event_id event_id)

-- The columns of an answer; `_centered_expr` is NULL without a centroid.
abbrev pub answer : World → (centered : Bool) → Indexed → Row
answer w centered r = record {
  chunk_id = r.chunk_id;
  event_id = r.event_id;
  service = r.service;
  ts = r.ts;
  indexed_at = r.indexed_at;
  source = r.source;
  text = r.text;
  type_name = r.type_name;
  title = r.title;
  similarity = w.similarity r;
  centered_similarity = if centered then some (w.centered_similarity r) else none;
}

-- `ORDER BY embedding <=> qvec, chunk_id`
abbrev pub nearer : World → Indexed → Indexed → Bool
nearer w a b =
    ltb (w.similarity b) (w.similarity a)
    || ((w.similarity a == w.similarity b) && w.text_le a.chunk_id b.chunk_id)

-- `ORDER BY rank DESC, chunk_id`
abbrev pub better : World → Indexed → Indexed → Bool
better w a b =
    not (fraction_leb (w.rank a) (w.rank b))
    || (fraction_leb (w.rank b) (w.rank a) && w.text_le a.chunk_id b.chunk_id)

abbrev pub is_candidate : Filter → Indexed → Bool
is_candidate f r = accepts f r.service r.ts r.event_id

-- `vector_sql`
unfoldable pub vector_arm : World → Filter → (centered : Bool) → List Indexed → List Row
vector_arm w f centered rows =
    map (answer w centered) (take arm_k (sort_by (nearer w) (select (is_candidate f) rows)))

-- `keyword_sql`
unfoldable pub keyword_arm : World → Filter → (centered : Bool) → List Indexed → List Row
keyword_arm w f centered rows =
    map (answer w centered)
      (take arm_k (sort_by (better w) (select (λ r. is_candidate f r && w.matches r) rows)))

-- `hybrid_search` with its queries, where there is a centroid or not.
unfoldable pub search_index :
    World → Filter → (has_centroid : Bool) → List Indexed → (k : ℕ) → Option ℕ → ℕ → HybridResult
search_index w f has_centroid rows k centered_floor min_similarity =
    let centered = is_some centered_floor && has_centroid in
    hybrid_search (vector_arm w f centered rows) (keyword_arm w f centered rows) k
      (is_some f.service || is_some f.since) centered_floor min_similarity
