-- ===== src/Ops/IndexReady/Settled.antt =====
-- How the wait for an index that has caught up ends.
use freshet.Prelude.{
  ℕ, zero, suc, ◌+◌, ◌-◌, ◌<◌, ◌≤◌, ◌≡◌, refl, String, Bool, true, false, ◌&&◌, not, some, List, [],
  ◌∷◌, leb, arith, eq_iff, str_eq, is_some, Bool-cases, inl, inr,
}
use freshet.Prelude.Lists.{All}
use freshet.Prelude.Table.{Table, find, find-put}
use freshet.Ops.IndexReady.{
  Reading, lag, unreadable, World, Clock, Snapshot, note, read_all, all_zero, caught_up, Verdict,
  ready, timed_out, unfinished, wait, wait_ready,
}

-- A snapshot is returned with a lag of zero for each group; the error is raised at the deadline or
-- after it; nothing else happens.
abbrev pub IsSettled : List String → ℕ → Verdict → Clock → Type 0
IsSettled groups deadline (ready last) s = All (λ g. find g last ≡ some 0) groups
IsSettled groups deadline timed_out s = deadline ≤ s.now
IsSettled groups deadline unfinished s = ⊥

note_keeps :
    (g j : String) (x : Reading) (r : Snapshot)
    → is_some (find j r.last) ≡ true
    → is_some (find j (note g x r).last) ≡ true
note_keeps g j (lag n) r h = ground (arith, find-put g j n r.last)
note_keeps g j unreadable r h = h

read_all_keeps :
    (w : World) (gs : List String) (r : Snapshot) (s : Clock) (j : String)
    → is_some (find j r.last) ≡ true
    → is_some (find j (read_all w gs r s).0.last) ≡ true
unfolding read_all
read_all_keeps w [] r s j h = h
read_all_keeps w (g ∷ gs) r s j h =
    read_all_keeps w gs _ _ j (note_keeps g j (w.read s.calls g) r h)

note_failed :
    (g : String) (x : Reading) (r : Snapshot) → r.failed ≡ true → (note g x r).failed ≡ true
note_failed g (lag n) r h = h
note_failed g unreadable r h = refl

read_all_failed :
    (w : World) (gs : List String) (r : Snapshot) (s : Clock)
    → r.failed ≡ true
    → (read_all w gs r s).0.failed ≡ true
unfolding read_all
read_all_failed w [] r s h = h
read_all_failed w (g ∷ gs) r s h = read_all_failed w gs _ _ (note_failed g (w.read s.calls g) r h)

read_first :
    (w : World) (g : String) (gs : List String) (x : Reading) (r : Snapshot) (s : Clock)
    → (read_all w gs (note g x r) s).0.failed ≡ false
    → is_some (find g (read_all w gs (note g x r) s).0.last) ≡ true
read_first w g gs (lag n) r s h =
    read_all_keeps w gs (note g (lag n) r) s g (ground (arith, find-put g g n r.last, eq_iff g g))
read_first w g gs unreadable r s h = cc (read_all_failed w gs (note g unreadable r) s refl)

read_all_present :
    (w : World) (gs : List String) (r : Snapshot) (s : Clock)
    → (read_all w gs r s).0.failed ≡ false
    → All (λ g. is_some (find g (read_all w gs r s).0.last) ≡ true) gs
unfolding read_all
read_all_present w [] r s h = tt
read_all_present w (g ∷ gs) r s h = (
  read_first w g gs (w.read s.calls g) r _ h,
  read_all_present w gs (note g (w.read s.calls g) r) _ h,
)

zero_found :
    (g : String) (t : Table ℕ) → all_zero t ≡ true → is_some (find g t) ≡ true → find g t ≡ some 0
unfolding all_zero find
zero_found g [] z h = cc
zero_found g ((j, n) ∷ t) z h = elim (Bool-cases (str_eq j g)) [
  | inl here ↦ rw here (ground arith)
  | inr later ↦ rw later (zero_found g t (ground arith) (ground arith))
]

All-found :
    (gs : List String) (t : Table ℕ)
    → all_zero t ≡ true
    → All (λ g. is_some (find g t) ≡ true) gs
    → All (λ g. find g t ≡ some 0) gs
All-found [] t z h = tt
All-found (g ∷ gs) t z h = (zero_found g t z h.0, All-found gs t z h.1)

caught_up-parts : (b c : Bool) → (not b && c) ≡ true → (b ≡ false) × (c ≡ true)
caught_up-parts b c h = (ground arith, ground arith)

read_all_later :
    (w : World) (gs : List String) (r : Snapshot) (s : Clock) → s.now ≤ (read_all w gs r s).1.now
unfolding read_all
read_all_later w [] r s = omega arith
read_all_later w (g ∷ gs) r s = omega (
  arith,
  read_all_later w gs (note g (w.read s.calls g) r)
      (record { now = s.now + w.elapsed s.calls; calls = suc s.calls }),
)

wait-IsSettled :
    (w : World) (gs : List String) (interval deadline fuel : ℕ) (s : Clock)
    → 0 < interval
    → deadline - s.now < fuel
    → IsSettled gs deadline
        (wait w gs interval deadline fuel s).0
        (wait w gs interval deadline fuel s).1
unfolding wait
wait-IsSettled w gs interval deadline zero s pos enough = omega arith
wait-IsSettled w gs interval deadline (suc fuel) s pos enough =
    let fresh : Snapshot = record { last = []; failed = false } in
    let r = (read_all w gs fresh s).0 in
    let s' = (read_all w gs fresh s).1 in
    elim (Bool-cases (caught_up r)) [
      | inl up ↦ rw up (
          All-found gs r.last (caught_up-parts r.failed (all_zero r.last) up).1
            (read_all_present w gs fresh s (caught_up-parts r.failed (all_zero r.last) up).0))
      | inr behind ↦ elim (Bool-cases (leb deadline s'.now)) [
        | inl late ↦ rw (behind, late) (ground arith)
        | inr early ↦
            rw (behind, early)
              (wait-IsSettled w gs interval deadline fuel _ pos
                (ground (arith, read_all_later w gs fresh s)))
      ]
    ]

-- With a positive interval the wait ends, whatever is read and however long that takes: either the
-- snapshot is returned and has a lag of zero for each group, or the deadline has come and the error
-- is raised.
pub wait_ready-IsSettled :
    (w : World) (groups : List String) (timeout interval : ℕ) (s : Clock)
    → 0 < interval
    → IsSettled groups
        (s.now + timeout)
        (wait_ready w groups timeout interval s).0
        (wait_ready w groups timeout interval s).1
unfolding wait_ready
wait_ready-IsSettled w groups timeout interval s pos =
    wait-IsSettled w groups interval (s.now + timeout) (timeout + 1) s pos (omega arith)
