-- ===== src/Autopilot/Impact.antt =====
-- freshet/autopilot/impact.py, with its regular expressions as functions. A percentage is an exact
-- fraction, a duration a number of milliseconds.
pub mod Levels
use Prim.Native.String.{◌++◌ as ◌+str+◌}
use freshet.Prelude.{
  ℕ, ◌-◌, ◌*◌, ◌/◌, ◌%◌, String, Bool, true, false, ◌&&◌, ◌||◌, not, Option, none, some, List, [],
  ◌∷◌, ◌++◌, ltb, leb, ◌==◌, if◌then◌else◌, length,
}
use freshet.Prelude.Fraction.{Fraction, fraction_leb}
use freshet.Prelude.Decimal.{decimal}
use freshet.Common.Time.{second, minute}

-- `_SENTENCE_SPLIT.split`, a match of `_UTILISATION_RE` and of `_ERROR_CONTEXT_RE`, the figures that
-- `_PCT_RE` finds, and the format `g`.
pub record World : Type 0 where
  pub sentences : List ℕ → List (List ℕ)
  pub is_utilisation : List ℕ → Bool
  pub has_error_context : List ℕ → Bool
  pub percentages : List ℕ → List Fraction
  pub format : Fraction → String

abbrev pub sentence_percentages : World → List ℕ → List Fraction
sentence_percentages w sentence =
    if w.is_utilisation sentence
    then []
    else if not (w.has_error_context sentence)
    then []
    else w.percentages sentence

unfoldable pub text_percentages : World → List (List ℕ) → List Fraction
text_percentages w [] = []
text_percentages w (sentence ∷ rest) = sentence_percentages w sentence ++ text_percentages w rest

-- `vals` of `max_stated_pct`
unfoldable pub stated : World → List (List ℕ) → List Fraction
stated w [] = []
stated w (text ∷ texts) = text_percentages w (w.sentences text) ++ stated w texts

unfoldable pub biggest : Fraction → List Fraction → Fraction
biggest m [] = m
biggest m (x ∷ xs) = biggest (if fraction_leb x m then m else x) xs

abbrev pub max_of : List Fraction → Option Fraction
max_of [] = none
max_of (x ∷ xs) = some (biggest x xs)

-- `max_stated_pct`
unfoldable pub max_stated_pct : World → List (List ℕ) → Option Fraction
max_stated_pct w texts = max_of (stated w texts)

-- `_duration_min`
unfoldable pub duration : Option ℕ → Option ℕ → Option ℕ
duration none resolved_at = none
duration (some o) none = none
duration (some o) (some r) = if ltb r o then none else some (r - o)

-- The end of `_duration_display`, and of `_format_duration` of freshet/autopilot/investigate.py.
unfoldable pub show_span : ℕ → String
show_span secs =
    let m = secs / 60 in
    if ltb secs 60
    then decimal secs +str+ "s"
    else if ltb m 60
    then decimal m +str+ "m"
    else decimal (m / 60) +str+ ("h " +str+ (decimal (m % 60) +str+ "m"))

-- `_duration_display`
unfoldable pub duration_display : Option ℕ → String
duration_display none = "ongoing"
duration_display (some span) = show_span (span / second)

pub data Level : Type 0 where
  high low medium : Level

abbrev pub percent : ℕ → Fraction
percent n = record { num = n; over = 0 }

abbrev pub pct_from : ℕ → Option Fraction → Bool
pct_from floor none = false
pct_from floor (some pct) = fraction_leb (percent floor) pct

abbrev pub pct_below : ℕ → Option Fraction → Bool
pct_below ceiling none = false
pct_below ceiling (some pct) = not (fraction_leb (percent ceiling) pct)

abbrev pub is_long : Option ℕ → Bool
is_long none = false
is_long (some span) = leb (60 * minute) span

abbrev pub is_short : Option ℕ → Bool
is_short none = true
is_short (some span) = ltb span (10 * minute)

-- `classify_impact`
unfoldable pub classify_impact : World → List String → Option ℕ → Option ℕ → List (List ℕ) → Level
classify_impact w services opened_at resolved_at texts =
    let pct = max_stated_pct w texts in
    let n = length services in
    let span = duration opened_at resolved_at in
    if pct_from 25 pct || (leb 3 n || is_long span)
    then high
    else if pct_below 5 pct && ((n == 1) && is_short span)
    then low
    else medium

abbrev pub label : Level → String
label high = "High"
label low = "Low"
label medium = "Medium"

abbrev pub source_reports : World → Option Fraction → String
source_reports w none = ""
source_reports w (some pct) = "; source reports ~" +str+ (w.format pct +str+ "% errors")

-- `estimate_impact`
unfoldable pub estimate_impact : World → List String → Option ℕ → Option ℕ → List (List ℕ) → String
estimate_impact w services opened_at resolved_at texts =
    let n = length services in
    "Impact: "
    +str+ (label (classify_impact w services opened_at resolved_at texts)
        +str+ (" — "
            +str+ (decimal n
                +str+ (" service"
                    +str+ ((if n == 1 then "" else "s")
                        +str+ (", "
                            +str+ (duration_display (duration opened_at resolved_at)
                                +str+ source_reports w (max_stated_pct w texts))))))))
