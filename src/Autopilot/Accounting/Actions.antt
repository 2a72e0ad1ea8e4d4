-- ===== src/Autopilot/Accounting/Actions.antt =====
-- The accounting of the posts through the claims, the deliveries and the marks of consumer.py.
use freshet.Autopilot.Accounting.Statements.{
  MayPost-modify, set_claim-KeepsDelivered, claimable-MayPost,
}
use freshet.Autopilot.Brief.{Findings}
use freshet.Prelude.Table.{find, Table, modify, find-modify}
use mathlib.Core.Option
use freshet.Prelude.{
  refl, ◌<◌, inl, inr, ℕ, ◌≡◌, String, Bool, true, Option, none, some, Option-cases, arith,
  Bool-cases, is_some, if◌then◌else◌, ◌∷◌, eq_iff, ◌⊎◌, ◌+◌, suc,
}
use freshet.Prelude.Exec.{Result, ok, err, Result-cases}
use freshet.Common.Incidents.{Incident}
use freshet.Autopilot.Leases.{
  brief, progress, postmortem, Kind, claimable, set_claim, claimable_deferred, mark_delivered,
}
use freshet.Autopilot.Agent.{
  Agent, update_returning, claim, claim_deferred, deliver, World, mark, update, Ledger, marked,
}
use freshet.Autopilot.Accounting.Counts.{
  IsAccounted, MayPost, IsUnmarked, same_kind, count_posts, delivered_flag,
}

-- What holds after a claim: with the lease the message may be posted.
abbrev pub Claimed : Kind → String → Option Incident → Agent → Type 0
Claimed k i none s = IsAccounted s.incidents s.ledger
Claimed k i (some _) s = MayPost k i s.incidents s.ledger

update_returning-Claimed :
    (guard : Incident → Bool) (k : Kind) (i : String) (now : ℕ) (s : Agent)
    → ((r : Incident) → guard r ≡ true → claimable k now r ≡ true)
    → IsAccounted s.incidents s.ledger
    → (o : Option Incident) × ((update_returning guard (set_claim k now) i s).0 ≡ ok o)
      × Claimed k i o (update_returning guard (set_claim k now) i s).1
unfolding update_returning update
update_returning-Claimed guard k i now s implied a = elim (Option-cases (find i s.incidents)) [
  | inl missing ↦ (none, rw missing, rw missing a)
  | inr (r, found) ↦ elim (Bool-cases (guard r)) [
    | inl free ↦ (
      some (set_claim k now r),
      rw (found, free),
      rw (found, free)
          (MayPost-modify k i (set_claim k now) (set_claim-KeepsDelivered k now)
            (claimable-MayPost k i now r (implied r free) found a)),
    )
    | inr taken ↦ (none, rw (found, taken), rw (found, taken) a)
  ]
]

pub claim-Claimed :
    (k : Kind) (i : String) (s : Agent)
    → IsAccounted s.incidents s.ledger
    → (o : Option Incident) × ((claim k i s).0 ≡ ok o) × Claimed k i o (claim k i s).1
unfolding claim
claim-Claimed k i s a = update_returning-Claimed (claimable k s.clock) k i s.clock s (λ r h. h) a

pub claim_deferred-Claimed :
    (k : Kind) (i : String) (s : Agent)
    → IsAccounted s.incidents s.ledger
    → (o : Option Incident) × ((claim_deferred k i s).0 ≡ ok o)
      × Claimed k i o (claim_deferred k i s).1
unfolding claim_deferred claimable_deferred
claim_deferred-Claimed k i s a =
    update_returning-Claimed (claimable_deferred k s.clock) k i s.clock s (λ r h. ground arith) a

brief_ready :
    (k : Kind) (i : String) (t : Table Incident) (l : Ledger)
    → MayPost k i t l
    → (same_kind k brief ≡ true) ⊎ (0 < count_posts brief i l.posts)
brief_ready k i t l m = elim m.ready [
  | inl opening ↦ inl opening
  | inr told ↦ inr (omega (arith, m.accounted.counted brief i, told))
]

-- Accepted all the same, and not marked: the message may be posted once more.
doubtful-MayPost :
    (k : Kind) (i : String) (t : Table Incident) (l : Ledger)
    → MayPost k i t l
    → MayPost k i t (record {
      posts = record { kind = k; incident_id = i } ∷ l.posts;
      unmarked = record { kind = k; incident_id = i } ∷ l.unmarked;
    })
unfolding count_posts
doubtful-MayPost k i t l m = record {
  accounted = record {
    counted = λ k' j. ground (arith, m.accounted.counted k' j);
    brief_first = (brief_ready k i t l m, m.accounted.brief_first);
  };
  fresh = m.fresh;
  stored = m.stored;
  ready = m.ready;
}

-- What holds after a delivery.
abbrev pub Delivered : Kind → String → Result (Option String) → Agent → Type 0
Delivered k i (ok _) s = IsUnmarked k i s.incidents s.ledger
Delivered k i (err _) s = MayPost k i s.incidents s.ledger

pub deliver-Delivered :
    (w : World) (k : Kind) (i : String) (f : Findings) (thread : Option String) (s : Agent)
    → MayPost k i s.incidents s.ledger
    → Delivered k i (deliver w k i f thread s).0 (deliver w k i f thread s).1
unfolding deliver
deliver-Delivered w k i f thread s m = elim (Result-cases (w.deliver s.calls f thread).result) [
  | inl (ts, e) ↦ rw e (record { before = s.ledger; now_first = refl; may = m })
  | inr (x, e) ↦ elim (Bool-cases (w.accepted s.calls)) [
    | inl taken ↦ rw (e, taken) (doubtful-MayPost k i s.incidents s.ledger m)
    | inr refused ↦ rw (e, refused) m
  ]
]

same_kind_eq : (k k' : Kind) → same_kind k k' ≡ true → k ≡ k'
same_kind_eq brief brief h = refl
same_kind_eq progress progress h = refl
same_kind_eq postmortem postmortem h = refl
same_kind_eq _ _ h = cc

delivered_flag-mark :
    (k k' : Kind) (now : ℕ) (ts channel : Option String) (o : Option Incident)
    → is_some o ≡ true
    → delivered_flag k' (Option.map (mark_delivered k now ts channel) o)
      ≡ (if same_kind k k' then 1 else delivered_flag k' o)
unfolding mark_delivered
delivered_flag-mark brief brief now ts channel o h = ground arith
delivered_flag-mark _ _ now ts channel o h = ground arith

count_posts-mark :
    (k k' : Kind) (i j : String) (now : ℕ) (ts channel : Option String) (t : Table Incident)
    (ps : Ledger)
    → MayPost k i t ps
    → count_posts k' j (record { kind = k; incident_id = i } ∷ ps.posts)
      ≡ delivered_flag k' (find j (modify i (mark_delivered k now ts channel) t))
        + count_posts k' j ps.unmarked
unfolding count_posts
count_posts-mark k k' i j now ts channel t ps m = ground (
  arith,
  same_kind_eq k k',
  eq_iff i j,
  find-modify i j (mark_delivered k now ts channel) t,
  delivered_flag-mark k k' now ts channel (find j t),
  m.fresh,
  m.stored,
  m.accounted.counted k' j,
)

-- Before the cleanup of a `try`: the message is sent and marked, or it may still be posted.
abbrev pub Sent : {A : Type 0} → Kind → String → Result A → Agent → Type 0
Sent k i (ok _) s = IsAccounted s.incidents s.ledger
Sent k i (err _) s = MayPost k i s.incidents s.ledger

marked-Sent :
    (k : Kind) (i : String) (ts channel : Option String) (r : Result (Unit {0})) (s : Agent)
    → IsUnmarked k i s.incidents s.ledger
    → Sent {A = Unit} k i (marked k i ts channel r s).0 (marked k i ts channel r s).1
unfolding update
marked-Sent k i ts channel (ok _) s u = rw u.now_first (record {
  counted = λ k' j. count_posts-mark k k' i j s.clock ts channel s.incidents u.before u.may;
  brief_first = (brief_ready k i s.incidents u.before u.may, u.may.accounted.brief_first);
})
marked-Sent k i ts channel (err e) s u =
    rw u.now_first (doubtful-MayPost k i s.incidents u.before u.may)

pub mark-Sent :
    (w : World) (k : Kind) (i : String) (ts channel : Option String) (s : Agent)
    → IsUnmarked k i s.incidents s.ledger
    → Sent {A = Unit} k i (mark w k i ts channel s).0 (mark w k i ts channel s).1
unfolding mark
mark-Sent w k i ts channel s u =
    marked-Sent k i ts channel (w.mark s.calls) (record s { calls = suc s.calls })
      (record { before = u.before; now_first = u.now_first; may = u.may })
