-- ===== src/Autopilot/Sinks.antt =====
-- freshet/autopilot/sinks and `render_brief` of freshet/autopilot/brief.py: the text of a brief, the
-- blocks of Slack, and their delivery. What is printed is left out. Slack's answer depends on the
-- number of the call; the conversion of Markdown and `lower` are functions.
pub mod Posts
use Prim.Native.String.{◌++◌ as ◌+str+◌}
use freshet.Prelude.{
  ℕ, zero, suc, ◌+◌, ◌*◌, String, Bool, true, false, ◌||◌, Option, none, some, List, [], ◌∷◌, ◌++◌,
  map, get_or, str_eq, if◌then◌else◌,
}
use freshet.Prelude.Exec.{Result, ok, err, other}
use freshet.Prelude.Decimal.{joined}
use freshet.Common.Time.{second}
use freshet.Autopilot.Brief.{Findings}

-- The text of a field, empty where there is none: the code asks for its truth only.
abbrev pub given : Option String → String
given t = get_or t ""

-- A line for a field that has a text.
abbrev pub line_if : (text line : String) → List String
line_if text line = if str_eq text "" then [] else line ∷ []

abbrev pub title_of_status : String → String
title_of_status status =
    if str_eq status "resolved"
    then "POSTMORTEM"
    else if str_eq status "in_progress"
    then "INCIDENT UPDATE"
    else "INCIDENT BRIEF"

-- `_STATUS_LABELS.get(f.status, f.status)`
abbrev pub status_label : String → String
status_label status = if str_eq status "in_progress" then "in progress" else status

-- `Cause` or `Resolution`: its quote, or that there is none where no narrative stands for it.
abbrev pub quoted : (name : String) → Option String → Option String → Option String → List String
quoted name text cite narrative =
    if str_eq (given text) ""
    then (if str_eq (given narrative) ""
        then (name +str+ ": not identified from retrieved evidence") ∷ []
        else [])
    else (name +str+ (": " +str+ (given text +str+ (" — " +str+ given cite)))) ∷ []

abbrev pub narrative_lines : String → List String
narrative_lines narrative = if str_eq narrative "" then [] else "" ∷ narrative ∷ "" ∷ []

abbrev pub update_block : List String → List String
update_block [] = []
update_block (u ∷ us) = "Updates:" ∷ map (λ line. "  " +str+ line) (u ∷ us)

-- `render_brief`
unfoldable pub render_brief : Findings → String
render_brief f = joined "\n" (
    ("=== "
      +str+ (title_of_status f.status
          +str+ (" — " +str+ (f.service +str+ (" (" +str+ (status_label f.status +str+ ") ==="))))))
    ∷ (narrative_lines (given f.narrative)
        ++ (quoted "Cause" f.cause_text f.cause_cite f.narrative
            ++ (quoted "Resolution" f.fix_text f.fix_cite f.narrative
                ++ (line_if (given f.recurrence) (given f.recurrence)
                    ++ (update_block f.updates
                        ++ (line_if (given f.runbook) ("Runbook: " +str+ given f.runbook)
                            ++ (line_if (given f.meta) (given f.meta)
                                ++ line_if (given f.impact) (given f.impact)))))))))

-- A block of Slack's Block Kit: its kind and its text.
pub data Block : Type 0 where
  header section context : (text : String) → Block

-- What a post comes to: no response, one with its `ts` and `channel`, or an error.
pub data Answer : Type 0 where
  silent raised : Answer
  response : (ts channel : Option String) → Answer

pub record Payload : Type 0 where
  pub channel : String
  pub text : String
  pub blocks : List Block
  pub thread : Option String

pub record World : Type 0 where
  pub post : (call : ℕ) → Payload → Answer
  pub to_mrkdwn : String → String
  pub lower : String → String

-- `_emoji`
unfoldable pub emoji : World → String → String
emoji w status =
    let s = w.lower status in
    if str_eq s "monitoring" || (str_eq s "in_progress" || str_eq s "in progress")
    then "🟠"
    else if str_eq s "resolved" || str_eq s "postmortem"
    then "🟢"
    else "🔴"

abbrev pub quoted_block : (name : String) → Option String → Option String → String
quoted_block name text cite =
    if str_eq (given text) ""
    then "*" +str+ (name +str+ ":* not identified from retrieved evidence")
    else "*" +str+ (name +str+ (":* " +str+ (given text +str+ (" `" +str+ (given cite +str+ "`")))))

abbrev pub context_block : List String → List Block
context_block [] = []
context_block (p ∷ parts) = context (joined "\n" (p ∷ parts)) ∷ []

-- `slack_blocks`
unfoldable pub slack_blocks : World → Findings → List Block
slack_blocks w f =
    let body =
      if str_eq (given f.narrative) ""
      then quoted_block "Cause" f.cause_text f.cause_cite
        +str+ ("\n" +str+ quoted_block "Resolution" f.fix_text f.fix_cite)
      else given f.narrative in
    header
      (emoji w f.status +str+ (" " +str+ (f.service +str+ (" — " +str+ status_label f.status))))
    ∷ section (w.to_mrkdwn body)
    ∷ context_block (
        line_if (given f.meta) (given f.meta)
        ++ (line_if (given f.impact) (given f.impact)
            ++ line_if (given f.runbook) ("Runbook: " +str+ given f.runbook)))

-- What `make_sink` gives.
pub data Sink : Type 0 where
  stdout_sink : Sink
  slack_sink : (token channel : String) → (dry_run : Bool) → Sink

-- `last_channel_id`, the time slept, and the number of posts.
pub record Slack : Type 0 where
  pub last_channel_id : Option String
  pub slept : ℕ
  pub calls : ℕ

-- MAX_ATTEMPTS, RETRY_BASE_S
abbrev pub max_attempts : ℕ
max_attempts = 3

abbrev pub retry_base : ℕ
retry_base = 2 * second

-- What `try` does with an answer: what is returned, or `none` where an error was raised. A response
-- without a `ts` is a KeyError.
abbrev pub outcome : Answer → Option (Option String)
outcome silent = some none
outcome raised = none
outcome (response ts channel) = elim ts [ none ↦ none | some t ↦ some (some t) ]

-- `resp.get("channel") or self.last_channel_id`
abbrev pub note_channel : Answer → Slack → Slack
note_channel silent s = s
note_channel raised s = s
note_channel (response ts channel) s =
    if str_eq (given channel) "" then s else record s { last_channel_id = channel }

abbrev pub attempted : Answer → Slack → Slack
attempted a s = note_channel a (record s { calls = suc s.calls })

abbrev pub settle :
    Option (Option String) → Slack → Result (Option String) × Slack → Result (Option String) × Slack
settle none s again = again
settle (some ts) s again = (ok ts, s)

-- The loop of `deliver`, with the number of attempts after the one at hand, the `k`-th.
unfoldable pub attempts : World → Payload → (left k : ℕ) → Slack → Result (Option String) × Slack
attempts w p zero k s =
    let a = w.post s.calls p in settle (outcome a) (attempted a s) (err other, attempted a s)
attempts w p (suc left) k s =
    let a = w.post s.calls p in
    settle (outcome a) (attempted a s) (
      attempts w p left (suc k)
        (record (attempted a s) { slept = (attempted a s).slept + retry_base * k }))

abbrev pub payload_of : World → (channel : String) → Findings → (thread : Option String) → Payload
payload_of w channel f thread = record {
  channel = channel;
  text = render_brief f;
  blocks = slack_blocks w f;
  thread = thread;
}

-- `deliver` of either sink
unfoldable pub deliver :
    World → Sink → Findings → (thread : Option String) → Slack → Result (Option String) × Slack
deliver w stdout_sink f thread s = (ok none, s)
deliver w (slack_sink token channel dry_run) f thread s =
    if dry_run then (ok none, s) else attempts w (payload_of w channel f thread) 2 1 s

-- `make_sink` over SLACK_BOT_TOKEN and SLACK_CHANNEL; the error is that of missing credentials or
-- of an unknown kind.
unfoldable pub make_sink : (kind : String) → (token channel : Option String) → Result Sink
make_sink kind token channel =
    if str_eq kind "stdout"
    then ok stdout_sink
    else if str_eq kind "slack"
    then (if str_eq (given token) "" || str_eq (given channel) ""
        then err other
        else ok (slack_sink (given token) (given channel) false))
    else if str_eq kind "slack-dry-run"
    then ok (
        slack_sink (given token) (if str_eq (given channel) "" then "#dry-run" else given channel)
          true)
    else err other
