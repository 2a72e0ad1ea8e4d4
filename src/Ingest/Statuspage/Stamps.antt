-- ===== src/Ingest/Statuspage/Stamps.antt =====
-- Where the times of a feed's updates lie.
use freshet.Prelude.{
  ℕ, ◌+◌, ◌-◌, ◌*◌, ◌≤◌, ◌≡◌, refl, String, Option, none, some, ltb, ◌⊎◌, inl, inr, Bool-cases,
  ltb→ge, ◌<◌, arith,
}
use freshet.Prelude.Table.{find}
use freshet.Common.Time.{minute, day}
use freshet.Ingest.Statuspage.{
  When, World, stamp_in, unless_old, unless_missing, roll_back, resolve, resolve_groups, parse_when,
  months, offsets,
}

-- A stamp of these groups that was resolved against a revision: at most 400 days before it, and the
-- time of the groups in the revision's year, at most a minute after the revision; or, where that one
-- is later, the time of the same groups in the year before.
pub record Near (w : World) (g : When) (month offset anchor stamp : ℕ) : Type 0 where
  pub recent : anchor ≤ stamp + 400 * day
  pub dated :
      ((stamp_in w (w.year_of anchor) g month offset ≡ some stamp) × (stamp ≤ anchor + minute))
      ⊎ ((later : ℕ) × (stamp_in w (w.year_of anchor) g month offset ≡ some later)
          × (anchor + minute < later)
          × (stamp_in w (w.year_of anchor - 1) g month offset ≡ some stamp))

abbrev pub AreNear : World → When → (month offset anchor : ℕ) → Option ℕ → Type 0
AreNear w g month offset anchor none = Unit
AreNear w g month offset anchor (some stamp) = Near w g month offset anchor stamp

-- The groups are those that the text has, with its month and its offset.
abbrev pub IsNear : World → String → ℕ → Option ℕ → Type 0
IsNear w raw anchor none = Unit
IsNear w raw anchor (some stamp) =
    (g : When) × (month : ℕ) × (offset : ℕ) × (w.when_groups (w.plain raw) ≡ some g)
    × (find g.mon months ≡ some month)
    × (find g.tz offsets ≡ some offset)
    × Near w g month offset anchor stamp

module _ (w : World) (g : When) (month offset anchor : ℕ) where
  unless_old-AreNear :
      (t : ℕ)
      → ((stamp_in w (w.year_of anchor) g month offset ≡ some t) × (t ≤ anchor + minute))
        ⊎ ((later : ℕ) × (stamp_in w (w.year_of anchor) g month offset ≡ some later)
            × (anchor + minute < later)
            × (stamp_in w (w.year_of anchor - 1) g month offset ≡ some t))
      → AreNear w g month offset anchor (unless_old anchor t)
  unless_old-AreNear t h = elim (Bool-cases (ltb (t + 400 * day) anchor)) [
    | inl old ↦ rw old tt
    | inr recent ↦ rw recent (record { recent = ltb→ge (t + 400 * day) anchor recent; dated = h })
  ]

  rolled-AreNear :
      (later : ℕ) (before : Option ℕ)
      → stamp_in w (w.year_of anchor) g month offset ≡ some later
      → anchor + minute < later
      → stamp_in w (w.year_of anchor - 1) g month offset ≡ before
      → AreNear w g month offset anchor (unless_missing anchor before)
  rolled-AreNear later none now h e = tt
  rolled-AreNear later (some t) now h e = unless_old-AreNear t (inr (later, now, h, e))

  roll_back-AreNear :
      (o : Option ℕ)
      → stamp_in w (w.year_of anchor) g month offset ≡ o
      → AreNear w g month offset anchor (roll_back w g month offset anchor o)
  roll_back-AreNear none now = tt
  roll_back-AreNear (some stamp) now = elim (Bool-cases (ltb (anchor + minute) stamp)) [
    | inl after ↦ rw after (
        rolled-AreNear stamp (stamp_in w (w.year_of anchor - 1) g month offset) now
          (ground (arith, after)) refl)
    | inr fits ↦ rw fits (unless_old-AreNear stamp (inl (now, ltb→ge (anchor + minute) stamp fits)))
  ]

module _ (w : World) (raw : String) (g : When) (anchor : ℕ) where
  AreNear-IsNear :
      (month offset : ℕ) (o : Option ℕ)
      → w.when_groups (w.plain raw) ≡ some g
      → find g.mon months ≡ some month
      → find g.tz offsets ≡ some offset
      → AreNear w g month offset anchor o
      → IsNear w raw anchor o
  AreNear-IsNear month offset none groups m z h = tt
  AreNear-IsNear month offset (some stamp) groups m z h = (g, month, offset, groups, m, z, h)

  resolve-IsNear :
      (month offset : Option ℕ)
      → w.when_groups (w.plain raw) ≡ some g
      → find g.mon months ≡ month
      → find g.tz offsets ≡ offset
      → IsNear w raw anchor (resolve w g anchor month offset)
  resolve-IsNear none offset groups m z = tt
  resolve-IsNear (some month) none groups m z = tt
  resolve-IsNear (some month) (some offset) groups m z = AreNear-IsNear month offset _ groups m z (
      roll_back-AreNear w g month offset anchor (stamp_in w (w.year_of anchor) g month offset) refl)

-- Whatever stands in a feed, a stamp is resolved only to a time that is at most 400 days before the
-- entry's revision: the one of its own day, clock and offset in the year of the revision, where that
-- is at most a minute after the revision, and else the one in the year before.
pub parse_when-IsNear :
    (w : World) (raw : String) (anchor : ℕ) → IsNear w raw anchor (parse_when w raw anchor)
unfolding parse_when
parse_when-IsNear w raw anchor = groups (w.when_groups (w.plain raw)) refl
  where
    groups :
        (o : Option When)
        → w.when_groups (w.plain raw) ≡ o
        → IsNear w raw anchor (resolve_groups w anchor o)
    groups none e = tt
    groups (some g) e =
        resolve-IsNear w raw g anchor (find g.mon months) (find g.tz offsets) e refl refl
