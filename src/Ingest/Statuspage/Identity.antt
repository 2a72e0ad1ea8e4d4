-- ===== src/Ingest/Statuspage/Identity.antt =====
-- The keys of an entry's stamped updates, and what a newer update at the top does to them.
use freshet.Prelude.{
  ℕ, suc, ◌≡◌, refl, ap, String, List, [], ◌∷◌, map, str_eq, if◌then◌else◌, arith, eq_iff,
}
use freshet.Prelude.Table.{Table, find, put, find-put}
use freshet.Ingest.Statuspage.{seen_times, ordinals}

-- One marker was seen once more.
abbrev pub bump : String → String × ℕ → String × ℕ
bump x (m, n) = (m, if str_eq x m then suc n else n)

seen-put :
    (m j : String) (n : ℕ) (seen : Table ℕ)
    → seen_times j (put m n seen) ≡ (if str_eq m j then n else seen_times j seen)
seen-put m j n seen = ground (arith, find-put m j n seen)

seen-step :
    (x m : String) (seen seen' : Table ℕ)
    → ((j : String)
        → seen_times j seen' ≡ (if str_eq x j then suc (seen_times j seen) else seen_times j seen))
    → (j : String)
    → seen_times j (put m (suc (seen_times m seen')) seen') ≡ (
        if str_eq x j
        then suc (seen_times j (put m (suc (seen_times m seen)) seen))
        else seen_times j (put m (suc (seen_times m seen)) seen))
seen-step x m seen seen' h j = ground (
  arith,
  seen-put m j (suc (seen_times m seen')) seen',
  seen-put m j (suc (seen_times m seen)) seen,
  h j,
  h m,
  eq_iff m j,
)

ordinals-bump :
    (x : String) (ms : List String) (seen seen' : Table ℕ)
    → ((j : String)
        → seen_times j seen' ≡ (if str_eq x j then suc (seen_times j seen) else seen_times j seen))
    → ordinals seen' ms ≡ map (bump x) (ordinals seen ms)
unfolding ordinals
ordinals-bump x [] seen seen' h = refl
ordinals-bump x (m ∷ ms) seen seen' h = cc (
  h m,
  ordinals-bump x ms (put m (suc (seen_times m seen)) seen) (put m (suc (seen_times m seen')) seen')
      (seen-step x m seen seen' h),
)

ordinals-after :
    (x : String) (ms : List String) → ordinals ((x, 1) ∷ []) ms ≡ map (bump x) (ordinals [] ms)
unfolding find
ordinals-after x ms = ordinals-bump x ms [] ((x, 1) ∷ []) (λ j. ground arith)

-- A newer update at the top of an entry keeps the key of every update that has another stamp, and
-- moves the key of every one that has the same stamp: that of the one before goes to the newer.
pub ordinals-prepend :
    (x : String) (ms : List String) → ordinals [] (x ∷ ms) ≡ (x, 0) ∷ map (bump x) (ordinals [] ms)
unfolding ordinals find put
ordinals-prepend x ms = ap (λ l. (x, 0) ∷ l) (ordinals-after x ms)
