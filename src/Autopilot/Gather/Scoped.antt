-- ===== src/Autopilot/Gather/Scoped.antt =====
-- Which rows of the index what is said of an incident depends on.
use freshet.Prelude.{
  ℕ, ◌≡◌, refl, sym, ap, ◌∙◌, String, Bool, ◌&&◌, Option, none, List, [], ◌∷◌, map, select, str_eq,
  Bool-cases, inl, inr,
}
use freshet.Prelude.Sort.{sort_by}
use freshet.Autopilot.Investigate.{
  Row, in_time, in_scope, group, update_of, newer, fetch_incident_updates, summarise, cutoff,
}
use freshet.Autopilot.Gather.{
  World, Composer, asked, findings_of, gather, gather_findings, gather_postmortem, fetch_runbook,
  runbook_of, runbook_text,
}

-- A row of an incident.
abbrev pub is_own : String → Row → Bool
is_own i r = str_eq r.incident_id i

-- A runbook of a service.
abbrev pub is_book : String → Row → Bool
is_book service r = str_eq r.service service && str_eq r.type_name "runbook"

select-in_scope :
    (i : String) (as_of : Option ℕ) (rows : List Row)
    → select (in_scope i as_of) rows
      ≡ select (λ (r : Row). in_time as_of r.ts) (select (is_own i) rows)
unfolding select
select-in_scope i as_of [] = refl
select-in_scope i as_of (r ∷ rows) = elim (Bool-cases (str_eq r.incident_id i)) [
  | inl own ↦ elim (Bool-cases (in_time as_of r.ts)) [
    | inl early ↦ rw own (rw early (ap (λ l. r ∷ l) (select-in_scope i as_of rows)))
    | inr late ↦ rw own (rw late (select-in_scope i as_of rows))
  ]
  | inr other' ↦ rw other' (select-in_scope i as_of rows)
]

module _ (i : String) (rows rows' : List Row) where
  -- Two contents of the index that differ in other incidents' rows at most.
  abbrev pub SameRows : Type 0
  SameRows = select (is_own i) rows ≡ select (is_own i) rows'

  -- And in rows that are no runbooks of a service.
  abbrev pub SameRunbooks : String → Type 0
  SameRunbooks service = select (is_book service) rows ≡ select (is_book service) rows'

  fetch-same :
      (least : List String → String) (as_of : Option ℕ)
      → SameRows
      → fetch_incident_updates least rows i as_of ≡ fetch_incident_updates least rows' i as_of
  unfolding fetch_incident_updates
  fetch-same least as_of same =
      ap (λ l. sort_by newer (map (update_of least) (group l [])))
        (select-in_scope i as_of rows
          ∙ ap (select (λ (r : Row). in_time as_of r.ts)) same
          ∙ sym (select-in_scope i as_of rows'))

  runbook-same :
      (w : World) (service : String)
      → SameRunbooks service
      → fetch_runbook w rows service ≡ fetch_runbook w rows' service
  unfolding fetch_runbook
  runbook-same w service books = ap (λ l. runbook_of w (runbook_text w l)) books

  gather-same :
      (w : World) (service status question : String) (composer : Option Composer) (embedder : Bool)
      (meta : Option String) (as_of : Option ℕ)
      → SameRows
      → SameRunbooks service
      → gather w rows service i status question composer embedder meta as_of
        ≡ gather w rows' service i status question composer embedder meta as_of
  unfolding gather
  gather-same w service status question composer embedder meta as_of same books =
      rw (runbook-same w service books) (
        ap
          (λ own.
            findings_of w (fetch_runbook w rows' service) service i status embedder meta own
              (summarise (asked question composer) own))
          (fetch-same w.least as_of same))

  -- Whatever the index holds of other incidents, runbooks of the service apart, a brief and a
  -- postmortem come out the same, each part of them and the error where there is one, as far as the
  -- search for recurrences gives the same hits.
  pub findings_scoped :
      (w : World) (question service status : String) (composer : Option Composer) (embedder : Bool)
      → SameRows
      → SameRunbooks service
      → (gather_findings w rows question service i status composer embedder
          ≡ gather_findings w rows' question service i status composer embedder)
        × (gather_postmortem w rows question service i composer embedder
            ≡ gather_postmortem w rows' question service i composer embedder)
  unfolding gather_findings gather_postmortem
  findings_scoped w question service status composer embedder same books = (
    gather-same w service status question composer embedder none (cutoff status w.incident_row) same
        books,
    gather-same w service "resolved" question composer embedder _ none same books,
  )
