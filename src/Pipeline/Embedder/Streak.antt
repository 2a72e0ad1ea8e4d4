-- ===== src/Pipeline/Embedder/Streak.antt =====
-- `streak["deadletters"]` and the dead letters of the embedding worker.
use freshet.Pipeline.Chunking.{chunk_text, default_max_chars}
use freshet.Prelude.Table.{find}
use freshet.Prelude.{ℕ, suc, ◌<◌, ◌≡◌, String, Option, none, some, List, [], ◌∷◌, is_none, ◌⊎◌, ◌≢◌}
use freshet.Prelude.Exec.{Result, ok, err}
use freshet.Pipeline.Embedder.{
  Event, Worker, Action, max_consecutive_deadletters, is_none, find, chunk_text,
}

-- What holds of a state, where no error was raised.
abbrev OnOk : {A : Type 0} (P : Worker → Type 0) → Result A → Worker → Type 0
OnOk P (ok _) s = P s
OnOk P (err _) s = Unit

module _ (d : List String) where
  abbrev HasLetters : Worker → Type 0
  HasLetters s = s.deadletters ≡ d

  -- An action that dead-letters nothing.
  abbrev Keeps : {A : Type 0} → Action A → Type 0
  Keeps {A} m = (s : Worker) → HasLetters s → OnOk {A = A} HasLetters (m s).0 (m s).1

  -- After `complete` the streak is zero.
  abbrev IsReset : Worker → Type 0
  IsReset s = HasLetters s × (s.streak ≡ 0)

  -- A message that is not embedded, with a streak of `n` before.
  abbrev IsCounted : (value : String) (n : ℕ) → Worker → Type 0
  IsCounted value n t =
      (t.deadletters ≡ value ∷ d) × (t.streak ≡ n) × (n < max_consecutive_deadletters)

  -- After the attempts to embed: the vectors, or the message dead-lettered.
  abbrev Tried : (value : String) (n : ℕ) → Result (Option (List (List ℕ))) → Worker → Type 0
  Tried value n (ok (some vectors)) t = HasLetters t
  Tried value n (ok none) t = IsCounted value (suc n) t
  Tried value n (err e) t = Unit

  -- What the handler does to the streak `n` and to the dead letters, where it returns.
  abbrev Settled : (value : String) (n : ℕ) → Worker → Type 0
  Settled value n t = IsReset t ⊎ IsCounted value (suc n) t

-- What a message comes to where the handler returns: one that cannot be read is dead-lettered and
-- the streak is zero; one without a text leaves both as they were; and any other is either indexed,
-- with no dead letter and a streak of zero, or dead-lettered and counted, below the limit.
abbrev pub IsCountedFor : (value : String) (s : Worker) → Option Event → Worker → Type 0
IsCountedFor value s none t = IsCounted s.deadletters value 0 t
IsCountedFor value s (some ev) t =
    ((chunk_text ev.text default_max_chars ≡ [])
      × (t.deadletters ≡ s.deadletters)
      × (t.streak ≡ s.streak))
    ⊎ ((chunk_text ev.text default_max_chars ≢ []) × Settled s.deadletters value s.streak t)

abbrev pub OnReturn : (P : Worker → Type 0) → Result (Unit {0}) → Worker → Type 0
OnReturn P (ok _) t = P t
OnReturn P (err e) t = Unit
