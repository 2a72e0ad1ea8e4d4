-- ===== src/Autopilot/Accounting/Statements.antt =====
-- The accounting of the posts, one lemma for each statement and call of consumer.py.
use mathlib.Core.Option
use freshet.Prelude.{ℕ, ◌≡◌, refl, ◌∙◌, inl, inr, String, true, Option, none, some, arith, is_some}
use freshet.Prelude.Table.{Table, find, modify, find-modify}
use freshet.Common.Incidents.{Incident}
use freshet.Autopilot.Leases.{
  Kind, brief, progress, postmortem, delivered_at, claimable, set_claim, release,
}
use freshet.Autopilot.Agent.{Ledger}
use freshet.Autopilot.Accounting.Counts.{delivered_flag, IsAccounted, MayPost}

-- A change of a row that neither marks nor unmarks a delivery.
abbrev pub KeepsDelivered : (Incident → Incident) → Type 0
KeepsDelivered f =
    (k : Kind) (r : Incident) → is_some (delivered_at k (f r)) ≡ is_some (delivered_at k r)

delivered_flag-map :
    (f : Incident → Incident) (k : Kind) (o : Option Incident)
    → KeepsDelivered f
    → delivered_flag k (Option.map f o) ≡ delivered_flag k o
delivered_flag-map f k none h = refl
delivered_flag-map f k (some r) h = rw (h k r) refl

delivered_flag-modify :
    (i j : String) (f : Incident → Incident) (k : Kind) (t : Table Incident)
    → KeepsDelivered f
    → delivered_flag k (find j (modify i f t)) ≡ delivered_flag k (find j t)
delivered_flag-modify i j f k t h =
    ground (arith, find-modify i j f t, delivered_flag-map f k (find j t) h)

pub IsAccounted-modify :
    (i : String) (f : Incident → Incident) {t : Table Incident} {ps : Ledger}
    → KeepsDelivered f
    → IsAccounted t ps
    → IsAccounted (modify i f t) ps
IsAccounted-modify i f {t} h a = record {
  counted = λ k j. rw (delivered_flag-modify i j f k t h) (a.counted k j);
  brief_first = a.brief_first;
}

pub MayPost-modify :
    (k : Kind) (i : String) (f : Incident → Incident) {t : Table Incident} {ps : Ledger}
    → KeepsDelivered f
    → MayPost k i t ps
    → MayPost k i (modify i f t) ps
MayPost-modify k i f {t} h m = record {
  accounted = IsAccounted-modify i f h m.accounted;
  fresh = delivered_flag-modify i i f k t h ∙ m.fresh;
  stored = ground (arith, find-modify i i f t, m.stored);
  ready = ground (arith, delivered_flag-modify i i f brief t h, m.ready);
}

pub set_claim-KeepsDelivered : (k : Kind) (now : ℕ) → KeepsDelivered (set_claim k now)
unfolding set_claim
set_claim-KeepsDelivered brief now k r = ground arith
set_claim-KeepsDelivered progress now k r = ground arith
set_claim-KeepsDelivered postmortem now k r = ground arith

pub release-KeepsDelivered : (k : Kind) → KeepsDelivered (release k)
unfolding release
release-KeepsDelivered brief k r = ground arith
release-KeepsDelivered progress k r = ground arith
release-KeepsDelivered postmortem k r = ground arith

-- A row that can be claimed may be posted about.
pub claimable-MayPost :
    (k : Kind) (i : String) (now : ℕ) (r : Incident) {t : Table Incident} {ps : Ledger}
    → claimable k now r ≡ true
    → find i t ≡ some r
    → IsAccounted t ps
    → MayPost k i t ps
unfolding claimable
claimable-MayPost brief i now r c e a = record {
  accounted = a;
  fresh = ground arith;
  stored = ground arith;
  ready = inl refl;
}
claimable-MayPost progress i now r c e a = record {
  accounted = a;
  fresh = ground arith;
  stored = ground arith;
  ready = inr (ground arith);
}
claimable-MayPost postmortem i now r c e a = record {
  accounted = a;
  fresh = ground arith;
  stored = ground arith;
  ready = inr (ground arith);
}
