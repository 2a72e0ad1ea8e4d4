-- ===== src/Ingest/Statuspage.antt =====
-- freshet/ingest/statuspage.py: from the parsed feed to its updates. XML, regular expressions, the
-- calendar and the hash are the standard library's.
pub mod Stamps
pub mod Identity
use freshet.Prelude.{
  ℕ, suc, ◌+◌, ◌-◌, ◌*◌, String, Bool, Option, none, some, List, [], ◌∷◌, ◌++◌, ltb, leb, str_eq,
  get_or, if◌then◌else◌,
}
use freshet.Prelude.Sort.{sort_by}
use freshet.Prelude.Table.{Table, find, put}
use freshet.Common.Time.{minute, day}
use freshet.Ingest.Sweep.{IncidentUpdate}

-- _MONTHS
abbrev pub months : Table ℕ
months =
    ("Jan", 1)
    ∷ ("Feb", 2)
    ∷ ("Mar", 3)
    ∷ ("Apr", 4)
    ∷ ("May", 5)
    ∷ ("Jun", 6)
    ∷ ("Jul", 7)
    ∷ ("Aug", 8)
    ∷ ("Sep", 9)
    ∷ ("Oct", 10)
    ∷ ("Nov", 11)
    ∷ ("Dec", 12)
    ∷ []

-- _OFFSETS, in hours east of UTC plus twelve
abbrev pub offsets : Table ℕ
offsets =
    ("UTC", 12)
    ∷ ("GMT", 12)
    ∷ ("UT", 12)
    ∷ ("Z", 12)
    ∷ ("EST", 7)
    ∷ ("EDT", 8)
    ∷ ("CDT", 7)
    ∷ ("MST", 5)
    ∷ ("MDT", 6)
    ∷ ("PST", 4)
    ∷ ("PDT", 5)
    ∷ ("CET", 13)
    ∷ ("CEST", 14)
    ∷ ("EET", 14)
    ∷ ("EEST", 15)
    ∷ ("WET", 12)
    ∷ ("WEST", 13)
    ∷ ("JST", 21)
    ∷ ("KST", 21)
    ∷ ("HKT", 20)
    ∷ ("SGT", 20)
    ∷ ("MSK", 15)
    ∷ ("AEST", 22)
    ∷ ("AEDT", 23)
    ∷ ("AWST", 20)
    ∷ ("NZST", 24)
    ∷ ("NZDT", 25)
    ∷ ("BRT", 9)
    ∷ ("ART", 9)
    ∷ []

-- The groups of `_WHEN`.
pub record When : Type 0 where
  pub mon : String
  pub day_of_month : ℕ
  pub hour : ℕ
  pub minutes : ℕ
  pub tz : String

-- The groups of a match of `_UPDATE`.
pub record Block : Type 0 where
  pub when_text : String
  pub status : String
  pub body : String

-- An `<entry>`: the id that `_INCIDENT_ID` finds, the time that `_parse_iso` reads, the title and
-- the unescaped content.
pub record Entry : Type 0 where
  pub incident_id : Option String
  pub revised : Option ℕ
  pub title : String
  pub markup : String

-- What an update is recognised by.
pub data UpdateKey : Type 0 where
  stamped : (marker : String) (ordinal : ℕ) → UpdateKey
  status_line : (status : String) → UpdateKey
  revision : (revised : ℕ) → UpdateKey

pub record World : Type 0 where
  -- the test for a DTD, and `ET.fromstring` with the reading of the entries; `none` is `ParseError`
  pub has_doctype : String → Bool
  pub entries : String → Option (List Entry)
  -- `_plain`, `str.lower`, and the matches of `_WHEN`, `_UPDATE` and `_STATUS_LINE`
  pub plain : String → String
  pub lower : String → String
  pub when_groups : String → Option When
  pub blocks : String → List Block
  pub single : String → Option (String × String)
  -- `_COMPONENTS.sub("", body)`, and the first FALLBACK_MAX_CHARS characters, stripped
  pub without_components : String → String
  pub clipped : String → String
  -- `datetime(year, month, day, hour, minute, tzinfo)` in UTC; `none` is the `ValueError`
  pub datetime : (year month day hour minutes offset : ℕ) → Option ℕ
  pub year_of : ℕ → ℕ
  -- the two digests
  pub update_id : UpdateKey → String
  pub body_digest : String → String

-- The stamp of some groups in a year.
abbrev pub stamp_in : World → ℕ → When → ℕ → ℕ → Option ℕ
stamp_in w year g month offset = w.datetime year month g.day_of_month g.hour g.minutes offset

-- `if stamp < anchor - timedelta(days=400): return None`
abbrev pub unless_old : ℕ → ℕ → Option ℕ
unless_old anchor stamp = if ltb (stamp + 400 * day) anchor then none else some stamp

abbrev pub unless_missing : ℕ → Option ℕ → Option ℕ
unless_missing anchor none = none
unless_missing anchor (some stamp) = unless_old anchor stamp

-- A stamp after its own revision is one of the year before.
abbrev pub roll_back : World → When → ℕ → ℕ → ℕ → Option ℕ → Option ℕ
roll_back w g month offset anchor none = none
roll_back w g month offset anchor (some stamp) =
    if ltb (anchor + minute) stamp
    then unless_missing anchor (stamp_in w (w.year_of anchor - 1) g month offset)
    else unless_old anchor stamp

abbrev pub resolve : World → When → ℕ → Option ℕ → Option ℕ → Option ℕ
resolve w g anchor none offset = none
resolve w g anchor (some month) none = none
resolve w g anchor (some month) (some offset) =
    roll_back w g month offset anchor (stamp_in w (w.year_of anchor) g month offset)

abbrev pub resolve_groups : World → ℕ → Option When → Option ℕ
resolve_groups w anchor none = none
resolve_groups w anchor (some g) = resolve w g anchor (find g.mon months) (find g.tz offsets)

-- `_parse_when`
unfoldable pub parse_when : World → String → ℕ → Option ℕ
parse_when w raw anchor = resolve_groups w anchor (w.when_groups (w.plain raw))

-- `_make`
unfoldable pub make :
    World → String → String → String → ℕ → String → String → UpdateKey → IncidentUpdate
make w provider incident_id name stamp status body key = record {
  provider = provider;
  incident_id = incident_id;
  update_id = w.update_id key;
  created_at = stamp;
  status = status;
  text = body;
  incident_name = name;
  body_digest = w.body_digest body;
}

-- How often a marker was seen, and the ordinals of the markers in turn.
abbrev pub seen_times : String → Table ℕ → ℕ
seen_times m seen = get_or (find m seen) 0

unfoldable pub ordinals : Table ℕ → List String → List (String × ℕ)
ordinals seen [] = []
ordinals seen (m ∷ ms) = (m, seen_times m seen) ∷ ordinals (put m (suc (seen_times m seen)) seen) ms

unfoldable pub markers : World → List Block → List String
markers w [] = []
markers w (b ∷ bs) = w.plain b.when_text ∷ markers w bs

-- The loop over the blocks, with the ordinals of their markers.
unfoldable pub stamped_updates :
    World → String → String → String → ℕ → List Block → List (String × ℕ) → List IncidentUpdate
stamped_updates w provider i name revised [] keys = []
stamped_updates w provider i name revised (b ∷ bs) [] = []
stamped_updates w provider i name revised (b ∷ bs) ((marker, ordinal) ∷ keys) =
    make w provider i name (get_or (parse_when w b.when_text revised) revised)
      (w.lower (w.plain b.status)) (w.plain b.body) (stamped marker ordinal)
    ∷ stamped_updates w provider i name revised bs keys

-- An entry without blocks: its status line, or its prose.
abbrev pub unstamped :
    World → String → String → String → ℕ → String → Option (String × String) → List IncidentUpdate
unstamped w provider i name revised markup (some (status, body)) =
    let s = w.lower (w.plain status) in
    make w provider i name revised s (w.plain (w.without_components body)) (status_line s) ∷ []
unstamped w provider i name revised markup none =
    let prose = w.clipped (w.plain markup) in
    if str_eq prose ""
    then []
    else make w provider i name revised "unknown" prose (revision revised) ∷ []

abbrev pub blocks_or_else :
    World → String → String → String → ℕ → String → List Block → List IncidentUpdate
blocks_or_else w provider i name revised markup [] =
    unstamped w provider i name revised markup (w.single markup)
blocks_or_else w provider i name revised markup (b ∷ bs) =
    stamped_updates w provider i name revised (b ∷ bs) (ordinals [] (markers w (b ∷ bs)))

-- The body of the loop over the entries.
abbrev pub entry_parts : World → String → Entry → Option String → Option ℕ → List IncidentUpdate
entry_parts w provider e none revised = []
entry_parts w provider e (some i) none = []
entry_parts w provider e (some i) (some revised) =
    blocks_or_else w provider i e.title revised e.markup (w.blocks e.markup)

unfoldable pub entry_updates : World → String → Entry → List IncidentUpdate
entry_updates w provider e = entry_parts w provider e e.incident_id e.revised

unfoldable pub all_updates : World → String → List Entry → List IncidentUpdate
all_updates w provider [] = []
all_updates w provider (e ∷ es) = entry_updates w provider e ++ all_updates w provider es

abbrev pub created_no_later : IncidentUpdate → IncidentUpdate → Bool
created_no_later u v = leb u.created_at v.created_at

abbrev pub sorted_updates : World → String → Option (List Entry) → List IncidentUpdate
sorted_updates w provider none = []
sorted_updates w provider (some es) = sort_by created_no_later (all_updates w provider es)

-- `parse_atom`
unfoldable pub parse_atom : World → String → String → List IncidentUpdate
parse_atom w provider feed =
    if w.has_doctype feed then [] else sorted_updates w provider (w.entries feed)
