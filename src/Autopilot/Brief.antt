-- ===== src/Autopilot/Brief.antt =====
-- freshet/autopilot/brief.py: what a brief holds, and how its parts are taken from the updates of an
-- incident. A text of an update is the list of its code points.
pub mod Causes
use freshet.Prelude.{
  ℕ, String, Bool, false, ◌&&◌, not, Option, none, some, List, [], ◌∷◌, ◌++◌, leb, ◌==◌, get_or,
  if◌then◌else◌, length, take, map,
}
use freshet.Prelude.Sort.{sort_by}
use freshet.Pipeline.Chunking.{split, join, split_sentences, is_empty}
use freshet.Rag.Composer.{without_trailing}

pub record Findings : Type 0 where
  pub service : String
  pub status : String
  pub cause_text : Option String
  pub cause_cite : Option String
  pub fix_text : Option String
  pub fix_cite : Option String
  pub runbook : Option String
  pub narrative : Option String
  pub meta : Option String
  pub impact : Option String
  pub updates : List String
  pub recurrence : Option String

-- What the heuristics read of an update.
pub record Update : Type 0 where
  pub event_id : String
  pub ts : ℕ
  pub text : List ℕ

-- The patterns: some of _CAUSE_MARKERS stands in the lowered sentence, and the four regular
-- expressions.
pub record Patterns : Type 0 where
  pub has_cause_marker : List ℕ → Bool
  pub promissory : List ℕ → Bool
  pub found_but_unnamed : List ℕ → Bool
  pub unresolved : List ℕ → Bool
  pub names_a_suspect : List ℕ → Bool

-- The body of the loop of `_cause_sentence`: whether the sentence is returned.
unfoldable pub states_cause : Patterns → List ℕ → Bool
states_cause w sentence =
    if not (w.has_cause_marker sentence)
    then false
    else if w.promissory sentence
    then false
    else if w.found_but_unnamed sentence && not (w.names_a_suspect sentence)
    then false
    else not (w.unresolved sentence && not (w.names_a_suspect sentence))

unfoldable pub first_cause : Patterns → List (List ℕ) → Option (List ℕ)
first_cause w [] = none
first_cause w (sentence ∷ rest) =
    let later = first_cause w rest in if states_cause w sentence then some sentence else later

-- `_cause_sentence`
unfoldable pub cause_sentence : Patterns → List ℕ → Option (List ℕ)
cause_sentence w text = first_cause w (split_sentences text)

abbrev pub cite_unless_missing :
    Update → Option (List ℕ) → Option (List ℕ × Update) → Option (List ℕ × Update)
cite_unless_missing hit none later = later
cite_unless_missing hit (some sentence) later =
    if is_empty sentence then later else some (sentence, hit)

unfoldable pub cause_in_order : Patterns → List Update → Option (List ℕ × Update)
cause_in_order w [] = none
cause_in_order w (hit ∷ hits) =
    cite_unless_missing hit (cause_sentence w hit.text) (cause_in_order w hits)

abbrev pub not_later : Update → Update → Bool
not_later a b = leb a.ts b.ts

-- `cause_from_updates`; the citation is that of the update.
unfoldable pub cause_from_updates : Patterns → List Update → Option (List ℕ × Update)
cause_from_updates w hits = cause_in_order w (sort_by not_later hits)

-- MAX_UPDATES, _MAX_UPDATE_CHARS
abbrev pub max_updates : ℕ
max_updates = 4

abbrev pub max_update_chars : ℕ
max_update_chars = 200

-- The loop of `_clip`: the sentences that fit.
abbrev pub with_sentence : List ℕ → List ℕ → List ℕ
with_sentence kept sentence = if is_empty kept then sentence else kept ++ b' ' ∷ sentence

unfoldable pub keep_sentences : ℕ → List ℕ → List (List ℕ) → List ℕ
keep_sentences max_chars kept [] = kept
keep_sentences max_chars kept (sentence ∷ rest) =
    let further = keep_sentences max_chars (with_sentence kept sentence) rest in
    if leb (length (with_sentence kept sentence)) max_chars then further else kept

-- What stands before the last blank.
abbrev pub before_blank : ℕ → Option (List ℕ) → Option (List ℕ)
before_blank c none = if c == b' ' then some [] else none
before_blank c (some before) = some (c ∷ before)

unfoldable pub before_last : List ℕ → Option (List ℕ)
before_last [] = none
before_last (c ∷ cs) = before_blank c (before_last cs)

-- `text.rsplit(" ", 1)[0]`
abbrev pub without_last_word : List ℕ → List ℕ
without_last_word text = get_or (before_last text) text

abbrev pub clip_flat : ℕ → List ℕ → List ℕ → List ℕ
clip_flat max_chars flat kept =
    without_trailing (if is_empty kept then without_last_word (take max_chars flat) else kept)
    ++ b'.' ∷ b'.' ∷ b'.' ∷ []

-- `_clip`
unfoldable pub clip : List ℕ → ℕ → List ℕ
clip text max_chars =
    let flat = join (split text) in
    if leb (length flat) max_chars
    then flat
    else clip_flat max_chars flat (keep_sentences max_chars [] (split_sentences flat))

abbrev pub not_earlier : Update → Update → Bool
not_earlier a b = leb b.ts a.ts

-- `update_lines`: the clipped text with the update whose time and citation stand beside it.
unfoldable pub update_lines : List Update → List (List ℕ × Update)
update_lines hits =
    map (λ (hit : Update). (clip hit.text max_update_chars, hit))
      (take max_updates (sort_by not_earlier hits))
