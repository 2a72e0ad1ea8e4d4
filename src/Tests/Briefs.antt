-- ===== src/Tests/Briefs.antt =====
-- The impact, the findings and the posts of a brief on concrete inputs.
use freshet.Prelude.{
  ◌≡◌, refl, String, true, false, none, some, [], ◌∷◌, ◌==◌, if◌then◌else◌, select, str_eq,
}
use freshet.Prelude.Exec.{ok}
use freshet.Autopilot.Brief.{Findings}
use freshet.Autopilot.Impact.{percent}
use freshet.Autopilot.Investigate.{Row}
use freshet.Autopilot.Gather.{World, gather_findings, gather_postmortem}
use freshet.Autopilot.Gather.Scoped.{findings_scoped}
use freshet.Autopilot.Sinks.{slack_sink, raised, response, Slack, deliver, payload_of}
use freshet.Autopilot.Sinks.Posts.{IsPosted, deliver-IsDelivered}

-- Every sentence is about failure and states 30 %.
abbrev figures : freshet.Autopilot.Impact.World
figures = record {
  sentences = λ text. text ∷ [];
  is_utilisation = λ s. false;
  has_error_context = λ s. true;
  percentages = λ s. percent 30 ∷ [];
  format = λ f. "30";
}

abbrev answers : World
answers = record {
  least = λ texts. "";
  incident_row = some (record { opened_at = some 0; resolved_at = none; brief_as_of = none });
  resolution_summary = none;
  services = "zoom" ∷ [];
  patterns = record {
    has_cause_marker = λ s. true;
    promissory = λ s. false;
    found_but_unnamed = λ s. false;
    unresolved = λ s. false;
    names_a_suspect = λ s. false;
  };
  impact = figures;
  recurrence = record {
    lower = λ t. t;
    is_blank = λ t. true;
    contains = λ part whole. false;
    search = λ t. [];
    incident_rows = λ es. [];
  };
  floor = 0;
  strip = λ t. t;
  lower = λ t. t;
  text = λ t. "";
  minute_format = λ t. "10:00";
  day_format = λ t. "2026-01-01";
  second_format = λ t. "2026-01-01 10:00:00";
}

abbrev row : String → String → Row
row e i = record {
  event_id = e;
  incident_id = i;
  chunk_index = 0;
  ts = 10;
  text = b'!' ∷ [];
  service = "zoom";
  type_name = "incident";
  source = "status";
}

-- Another incident's row comes to the index.
findings_scoped_example :
    (gather_findings answers
        (row "e1" "i1" ∷ row "e2" "i2" ∷ [])
        ""
        "zoom"
        "i1"
        "open"
        (some (λ question updates. ok "Calls fail."))
        true
      ≡ gather_findings answers
          (row "e1" "i1" ∷ [])
          ""
          "zoom"
          "i1"
          "open"
          (some (λ question updates. ok "Calls fail."))
          true)
    × (gather_postmortem answers
          (row "e1" "i1" ∷ row "e2" "i2" ∷ [])
          ""
          "zoom"
          "i1"
          (some (λ question updates. ok "Calls fail."))
          true
        ≡ gather_postmortem answers
            (row "e1" "i1" ∷ [])
            ""
            "zoom"
            "i1"
            (some (λ question updates. ok "Calls fail."))
            true)
unfolding select str_eq
findings_scoped_example =
    findings_scoped "i1" (row "e1" "i1" ∷ row "e2" "i2" ∷ []) (row "e1" "i1" ∷ []) answers "" "zoom"
      "open" (some (λ question updates. ok "Calls fail.")) true refl refl

abbrev findings : Findings
findings = record {
  service = "zoom";
  status = "open";
  cause_text = none;
  cause_cite = none;
  fix_text = none;
  fix_cite = none;
  runbook = none;
  narrative = some "Calls fail.";
  meta = none;
  impact = none;
  updates = [];
  recurrence = none;
}

-- The first post raises, and the second is answered.
abbrev slack : freshet.Autopilot.Sinks.World
slack = record {
  post = λ call p. if call == 0 then raised else response (some "7.1") (some "C1");
  to_mrkdwn = λ t. t;
  lower = λ t. t;
}

abbrev fresh : Slack
fresh = record { last_channel_id = none; slept = 0; calls = 0 }

deliver-IsDelivered_example :
    IsPosted slack
      (payload_of slack "#ops" findings none)
      2
      1
      fresh
      (deliver slack (slack_sink "t" "#ops" false) findings none fresh)
deliver-IsDelivered_example =
    deliver-IsDelivered slack (slack_sink "t" "#ops" false) findings none fresh
