-- ===== src/Prelude/Table.antt =====
-- Python dictionaries with text keys and Postgres tables with a text primary key: association
-- lists in the order of insertion, with at most one entry for a key that `put` writes.
use mathlib.Core.Path.{◌≡◌, refl}
use mathlib.Core.Option
use mathlib.Core.Option.{Option, none, some}
use mathlib.Core.List.{List, [], ◌∷◌}
use mathlib.Core.Logic.{inl, inr}
use Prim.Native.String.{String}
use native.Mathlib.Omega.{arith}
use text.Mathlib.TextEquality.{eq_iff}
use freshet.Prelude.Tests.{Bool-cases, str_eq, if◌then◌else◌}

abbrev pub Table {ℓ} : Type ℓ → Type ℓ
Table V = List (String × V)

module _ {ℓ} {V : Type ℓ} where
  -- `d.get(k)`, `SELECT ... WHERE key = k`
  unfoldable pub find : String → Table V → Option V
  find k [] = none
  find k ((j, v) ∷ t) = if str_eq j k then some v else find k t

  -- `d[k] = v`
  unfoldable pub put : String → V → Table V → Table V
  put k v [] = (k, v) ∷ []
  put k v ((j, w) ∷ t) = if str_eq j k then (j, v) ∷ t else (j, w) ∷ put k v t

  -- `d.pop(k, None)`, `DELETE ... WHERE key = k`
  unfoldable pub remove : String → Table V → Table V
  remove k [] = []
  remove k ((j, w) ∷ t) = let rest = remove k t in if str_eq j k then rest else (j, w) ∷ rest

  -- `UPDATE ... SET ... WHERE key = k`
  unfoldable pub modify : String → (V → V) → Table V → Table V
  modify k f [] = []
  modify k f ((j, w) ∷ t) = if str_eq j k then (j, f w) ∷ t else (j, w) ∷ modify k f t

  pub find-put :
      (k j : String) (v : V) (t : Table V)
      → find j (put k v t) ≡ (if str_eq k j then some v else find j t)
  unfolding find put
  find-put k j v [] = refl
  find-put k j v ((i, w) ∷ t) = ground (arith, eq_iff k j, eq_iff i k, eq_iff i j, find-put k j v t)

  pub find-remove :
      (k j : String) (t : Table V) → find j (remove k t) ≡ (if str_eq k j then none else find j t)
  unfolding find remove
  find-remove k j [] = ground arith
  find-remove k j ((i, w) ∷ t) =
      ground (arith, eq_iff k j, eq_iff i k, eq_iff i j, find-remove k j t)

  pub find-modify :
      (k j : String) (f : V → V) (t : Table V)
      → find j (modify k f t) ≡ (if str_eq k j then Option.map f (find j t) else find j t)
  unfolding find modify
  find-modify k j f [] = ground arith
  find-modify k j f ((i, w) ∷ t) =
      ground (arith, eq_iff k j, eq_iff i k, eq_iff i j, find-modify k j f t)

module _ {ℓ} {V : Type ℓ} where
  -- No key has two entries.
  abbrev pub DistinctKeys : Table V → Type ℓ
  DistinctKeys [] = Unit
  DistinctKeys ((k, v) ∷ t) = (find k t ≡ none) × DistinctKeys t

  pub put-DistinctKeys :
      (k : String) (v : V) (t : Table V) → DistinctKeys t → DistinctKeys (put k v t)
  unfolding put find
  put-DistinctKeys k v [] h = (refl, tt)
  put-DistinctKeys k v ((j, w) ∷ t) h = elim (Bool-cases (str_eq j k)) [
    | inl same ↦ rw same h
    | inr new ↦
        rw new (
          ground (arith, h.0, find-put k j v t, eq_iff k j, eq_iff j k),
          put-DistinctKeys k v t h.1,
        )
  ]

  pub remove-DistinctKeys : (k : String) (t : Table V) → DistinctKeys t → DistinctKeys (remove k t)
  unfolding remove
  remove-DistinctKeys k [] h = tt
  remove-DistinctKeys k ((j, w) ∷ t) h = elim (Bool-cases (str_eq j k)) [
    | inl same ↦ rw same (remove-DistinctKeys k t h.1)
    | inr kept ↦ rw kept (ground (arith, h.0, find-remove k j t), remove-DistinctKeys k t h.1)
  ]

pub ruleset table_laws = (find-put, find-remove, find-modify)
