-- ===== src/Ingest/Backoff/Restart.antt =====
-- A restart of the poller: what `snapshot` saved and `restore` puts back.
use freshet.Prelude.{
  ℕ, ◌+◌, ◌-◌, ◌≡◌, refl, inl, inr, String, Option, none, some, [], ◌∷◌, ltb, if◌then◌else◌, arith,
  eq_iff, Bool-cases,
}
use freshet.Prelude.Table.{
  Table, find, put, find-put, DistinctKeys, put-DistinctKeys, remove-DistinctKeys,
}
use freshet.Ingest.Backoff.{
  HostBackoff, empty, skip, failed, succeeded, deadlines, snapshot, restore_until, restore,
}

abbrev deadline_of : ℕ → ℕ → Option ℕ → Option ℕ
deadline_of now wall none = none
deadline_of now wall (some t) = if ltb 0 (t - now) then some (wall + (t - now)) else none

find-deadlines :
    (u : String) (now wall : ℕ) (t : Table ℕ)
    → DistinctKeys t
    → find u (deadlines now wall t) ≡ deadline_of now wall (find u t)
unfolding deadlines find
find-deadlines u now wall [] h = refl
find-deadlines u now wall ((k, v) ∷ t) h =
    ground (arith, find-deadlines u now wall t h.1, eq_iff k u, h.0)

deadlines-DistinctKeys :
    (now wall : ℕ) (t : Table ℕ) → DistinctKeys t → DistinctKeys (deadlines now wall t)
unfolding deadlines
deadlines-DistinctKeys now wall [] h = tt
deadlines-DistinctKeys now wall ((k, v) ∷ t) h = elim (Bool-cases (ltb 0 (v - now))) [
  | inl live ↦
      rw live (
        ground (arith, find-deadlines k now wall t h.1, h.0),
        deadlines-DistinctKeys now wall t h.1,
      )
  | inr over ↦ rw over (deadlines-DistinctKeys now wall t h.1)
]

abbrev restored_of : ℕ → ℕ → Option ℕ → Option ℕ → Option ℕ
restored_of now wall none old = old
restored_of now wall (some d) old = if ltb 0 (d - wall) then some (now + (d - wall)) else old

find-restore_until :
    (u : String) (now wall : ℕ) (ds until : Table ℕ)
    → DistinctKeys ds
    → find u (restore_until now wall ds until) ≡ restored_of now wall (find u ds) (find u until)
unfolding restore_until find
find-restore_until u now wall [] until h = refl
find-restore_until u now wall ((k, d) ∷ ds) until h = elim (Bool-cases (ltb 0 (d - wall))) [
  | inl live ↦
      let until' = put k (now + (d - wall)) until in
      rw live (
        ground (
          arith,
          find-restore_until u now wall ds until' h.1,
          eq_iff k u,
          h.0,
          live,
          find-put k u (now + (d - wall)) until,
        ))
  | inr over ↦
      rw over (ground (arith, find-restore_until u now wall ds until h.1, eq_iff k u, h.0, over))
]

-- Where no host has two deadlines: a host that is backing off when the poller is stopped keeps its deadline: a poller that starts `e`
-- after the snapshot, on a monotonic clock of its own, skips the host `d` later exactly when the old
-- one would have skipped it then.
pub skip-restore :
    (host : String) (now now' wall e d : ℕ) (b : HostBackoff)
    → DistinctKeys b.until
    → skip host (now' + d) (restore now' (wall + e) (snapshot now wall b) empty)
      ≡ skip host (now + e + d) b
unfolding skip restore snapshot find
skip-restore host now now' wall e d b h = ground (
  arith,
  find-deadlines host now wall b.until h,
  find-restore_until host now' (wall + e) (deadlines now wall b.until) []
      (deadlines-DistinctKeys now wall b.until h),
)

-- The operations keep one entry for a host.
pub failed-DistinctKeys :
    (host : String) (r : Option ℕ) (now : ℕ) (b : HostBackoff)
    → DistinctKeys b.until
    → DistinctKeys (failed host r now b).0.until
unfolding failed
failed-DistinctKeys host r now b h = put-DistinctKeys host _ b.until h

pub succeeded-DistinctKeys :
    (host : String) (b : HostBackoff) → DistinctKeys b.until → DistinctKeys (succeeded host b).until
unfolding succeeded
succeeded-DistinctKeys host b h = remove-DistinctKeys host b.until h
