-- ===== src/Autopilot/Questions.antt =====
-- freshet/autopilot/thread_agent.py: `answer_question`, over the search, the lookup of an incident's
-- updates and the composer.
pub mod Evidences
pub mod Stuck
use Prim.Native.String as Text
use Prim.Native.Char.{code}
use Prim.Native.String.{◌++◌ as ◌+str+◌}
use freshet.Prelude.{
  ℕ, String, Bool, Option, none, some, List, [], ◌∷◌, ◌++◌, map, not, str_eq, is_some,
  if◌then◌else◌, take, select, false, ◌||◌,
}
use freshet.Prelude.Exec.{Result, ok, err}
use freshet.Rag.Timeframe
use freshet.Rag.Timeframe.{infer_window}
use freshet.Rag.Retrieval
use freshet.Rag.Retrieval.{RetrievedHit, HybridResult, hybrid_search}
use freshet.Autopilot.Investigate
use freshet.Autopilot.Investigate.{Update, fetch_incident_updates}

-- What a composer needs of a piece of evidence, `Cited`.
pub record Evidence : Type 0 where
  pub event_id : String
  pub ts : ℕ
  pub text : List ℕ
  pub source : String

-- The phrases of time with the clock, the answers of the two queries of a search with its floors, the
-- rows of `vector_records` with SQL's `min` of texts, and the composer.
pub record Sources : Type 0 where
  pub phrases : Timeframe.World
  pub now : ℕ
  pub vec_rows : List ℕ → (since : Option ℕ) → List Retrieval.Row
  pub kw_rows : List ℕ → (since : Option ℕ) → List Retrieval.Row
  pub centered_floor : Option ℕ
  pub min_similarity : ℕ
  pub rows : List Investigate.Row
  pub least : List String → String
  pub compose : List ℕ → List Evidence → Result (List ℕ)

-- The code points of a text.
unfoldable pub codes : String → List ℕ
codes Text.[] = []
codes (Text.◌∷◌ c s) = code c ∷ codes s

-- MAX_QUESTION_CHARS, ABSTAIN_REPLY, NO_EVIDENCE of freshet/rag/composer.py
abbrev pub max_question_chars : ℕ
max_question_chars = 500

abbrev pub abstain_reply : List ℕ
abstain_reply = codes "I don't have enough relevant indexed evidence to answer that confidently."

abbrev pub no_evidence : List ℕ
no_evidence = codes "I don't have enough indexed evidence to answer that."

abbrev pub of_update : Update → Evidence
of_update u = record { event_id = u.event_id; ts = u.ts; text = u.text; source = u.source }

abbrev pub of_hit : RetrievedHit → Evidence
of_hit h = record { event_id = h.event_id; ts = h.ts; text = codes h.text; source = h.source }

-- `_thread_evidence`; without an incident, an empty text, there is none
unfoldable pub thread_evidence : Sources → String → List Evidence
thread_evidence s incident_id =
    if str_eq incident_id ""
    then []
    else map of_update (take 8 (fetch_incident_updates s.least s.rows incident_id none))

-- `h.event_id in known`
unfoldable pub is_known : List Evidence → String → Bool
is_known [] e = false
is_known (x ∷ xs) e = str_eq x.event_id e || is_known xs e

-- `evidence`, the updates of the thread's incident and what a search adds
unfoldable pub with_hits : List Evidence → HybridResult → List Evidence
with_hits own result =
    if result.abstained
    then own
    else own ++ select (λ h. not (is_known own h.event_id)) (map of_hit result.hits)

unfoldable pub search : Sources → List ℕ → Option ℕ → HybridResult
search s question since =
    hybrid_search (s.vec_rows question since) (s.kw_rows question since) 6 (is_some since)
      s.centered_floor s.min_similarity

-- `_with_window`
unfoldable pub with_window : List ℕ → Option String → List ℕ
with_window answer none = answer
with_window answer (some window) =
    answer ++ codes ("\n\n_time filter: " +str+ (window +str+ " (inferred from your question)_"))

-- `composer.compose(question, evidence) or NO_EVIDENCE`
abbrev pub or_no_evidence : Option String → Result (List ℕ) → Result (List ℕ)
or_no_evidence window (err e) = err e
or_no_evidence window (ok []) = ok (with_window no_evidence window)
or_no_evidence window (ok (c ∷ answer)) = ok (with_window (c ∷ answer) window)

-- What stands behind `evidence`.
abbrev pub reply : Sources → List ℕ → Option String → List Evidence → Result (List ℕ)
reply s question window [] = ok (with_window abstain_reply window)
reply s question window (e ∷ evidence) = or_no_evidence window (s.compose question (e ∷ evidence))

abbrev pub in_window : Sources → List ℕ → String → Result (Option (ℕ × String)) → Result (List ℕ)
in_window s question incident_id (err e) = err e
in_window s question incident_id (ok none) =
    reply s question none (with_hits (thread_evidence s incident_id) (search s question none))
in_window s question incident_id (ok (some (since, window))) =
    reply s question (some window)
      (with_hits (thread_evidence s incident_id) (search s question (some since)))

-- `answer_question`
unfoldable pub answer_question : Sources → List ℕ → String → Result (List ℕ)
answer_question s question incident_id =
    let q = take max_question_chars question in
    in_window s q incident_id (infer_window s.phrases q s.now)
