-- ===== src/Rag/Timeframe.antt =====
-- freshet/rag/timeframe.py. A time is the number of milliseconds since the first `datetime`; what
-- would be before it is an OverflowError. The search of the regular expressions and `int` are
-- functions of the world.
pub mod Windows
use Prim.Native.String.{◌++◌ as ◌+str+◌}
use freshet.Prelude.{
  ℕ, ◌-◌, ◌*◌, ◌/◌, String, Option, none, some, List, [], ◌∷◌, ltb, if◌then◌else◌,
}
use freshet.Prelude.Exec.{Result, ok, err, other}
use freshet.Common.Time.{hour, day}

-- The patterns of `_RULES`, each named by a phrase that it matches.
pub data Pattern : Type 0 where
  last_n_hours last_n_days last_hour this_morning today yesterday this_week right_now recently :
      Pattern

-- `pattern.search`, with the text of the group of a match, empty where the pattern has none.
pub record World : Type 0 where
  pub search : Pattern → List ℕ → Option String
  pub int : String → ℕ

-- `_RULES`, in their order
abbrev pub rules : List Pattern
rules =
    last_n_hours ∷ last_n_days ∷ last_hour ∷ this_morning ∷ today ∷ yesterday ∷ this_week
    ∷ right_now ∷ recently ∷ []

-- `now - timedelta(...)`
unfoldable pub back : ℕ → ℕ → Result ℕ
back span now = if ltb now span then err other else ok (now - span)

-- `_midnight`
unfoldable pub midnight : ℕ → ℕ
midnight now = now / day * day

-- The second part of each rule.
unfoldable pub build : Pattern → (n now : ℕ) → Result ℕ
build last_n_hours n now = back (n * hour) now
build last_n_days n now = back (n * day) now
build last_hour n now = back hour now
build this_morning n now = ok (midnight now)
build today n now = ok (midnight now)
build yesterday n now = back day (midnight now)
build this_week n now = back (7 * day) now
build right_now n now = back (6 * hour) now
build recently n now = back (24 * hour) now

-- Its label, with the group put in.
unfoldable pub label : Pattern → String → String
label last_n_hours group = "last " +str+ (group +str+ " hours")
label last_n_days group = "last " +str+ (group +str+ " days")
label last_hour group = "last hour"
label this_morning group = "today"
label today group = "today"
label yesterday group = "since yesterday"
label this_week group = "last 7 days"
label right_now group = "last 6 hours"
label recently group = "last 24 hours"

abbrev pub named : String → Result ℕ → Result (Option (ℕ × String))
named text (ok since) = ok (some (since, text))
named text (err e) = err e

-- `if m`, with what the rules behind it come to
abbrev pub unless_found :
    World
    → Pattern
    → Option String
    → ℕ
    → Result (Option (ℕ × String))
    → Result (Option (ℕ × String))
unless_found w p none now others = others
unless_found w p (some group) now others = named (label p group) (build p (w.int group) now)

-- The loop of `infer_window` over the rules that are left.
unfoldable pub first_match : World → List Pattern → List ℕ → ℕ → Result (Option (ℕ × String))
first_match w [] question now = ok none
first_match w (p ∷ ps) question now =
    unless_found w p (w.search p question) now (first_match w ps question now)

-- `infer_window`
unfoldable pub infer_window : World → List ℕ → ℕ → Result (Option (ℕ × String))
infer_window w question now = first_match w rules question now
