-- ===== src/Pipeline/Lifecycle.antt =====
-- freshet/pipeline/lifecycle.py. `json.loads` is not modelled: a message is the object that it
-- gives, as a dictionary of the values that `from_json` and pydantic tell apart.
use freshet.Prelude.{String, Option, none, some, is_none, if◌then◌else◌, ◌∷◌, ◌≡◌, [], refl}
use freshet.Prelude.Table.{Table, find, put, remove}

pub data JsonValue : Type 0 where
  null : JsonValue
  text : String → JsonValue
  -- a number, a Boolean, an array or an object
  other : JsonValue

pub record LifecycleEvent : Type 0 where
  pub type : String
  pub incident_id : String
  pub service : String
  pub ts : String
  pub title : String

-- `if "type" not in d and "status" in d: d["type"] = d.pop("status")`
rename_status : Option JsonValue → Table JsonValue → Table JsonValue
rename_status none d = d
rename_status (some v) d = put "type" v (remove "status" d)

unfoldable pub accept_legacy : Table JsonValue → Table JsonValue
unfolding rename_status
accept_legacy d = if is_none (find "type" d) then rename_status (find "status" d) d else d

-- `d.get("title") or ""`
abbrev title_or_empty : Option JsonValue → Option JsonValue
title_or_empty none = some (text "")
title_or_empty (some null) = some (text "")
title_or_empty (some v) = some v

-- pydantic's check of a `str` field: it must be there and be a text
abbrev str_field : Option JsonValue → Option String
str_field (some (text s)) = some s
str_field _ = none

abbrev validate :
    Option String
    → Option String
    → Option String
    → Option String
    → Option String
    → Option LifecycleEvent
validate (some type) (some incident_id) (some service) (some ts) (some title) =
    some
      (record { type = type; incident_id = incident_id; service = service; ts = ts; title = title })
validate _ _ _ _ _ = none

-- `none` stands for the `KeyError` and the `ValidationError`.
unfoldable pub from_json : Table JsonValue → Option LifecycleEvent
unfolding accept_legacy
from_json message =
    let d = accept_legacy message in
    validate (str_field (find "type" d)) (str_field (find "incident_id" d))
      (str_field (find "service" d)) (str_field (find "ts" d))
      (str_field (title_or_empty (find "title" d)))

-- `to_json`, as the object that `json.loads` gives for it
unfoldable pub to_json : LifecycleEvent → Table JsonValue
to_json ev =
    ("type", text ev.type)
    ∷ ("incident_id", text ev.incident_id)
    ∷ ("service", text ev.service)
    ∷ ("ts", text ev.ts)
    ∷ ("title", text ev.title)
    ∷ []

pub from_json-to_json : (ev : LifecycleEvent) → from_json (to_json ev) ≡ some ev
unfolding from_json to_json accept_legacy find
from_json-to_json ev = refl
