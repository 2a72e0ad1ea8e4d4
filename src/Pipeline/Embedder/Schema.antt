-- ===== src/Pipeline/Embedder/Schema.antt =====
-- What db/init.sql asks of `vector_records`: a key is there once, and a vector has its dimension.
pub mod Kept
use freshet.Prelude.{
  ℕ, ◌≡◌, refl, ◌∙◌, String, ◌&&◌, not, none, List, [], ◌∷◌, leb, ◌==◌, str_eq, arith, length,
  Bool-cases, inl, inr, eq_iff, select,
}
use freshet.Pipeline.Embedder.{VectorRecord, upsert, embedding_dim}
use freshet.Pipeline.Embedder.Rows.{chunk_at, chunk_at-upsert, chunk_at-select}

-- The rows of a table whose `chunk_id` is a key and whose vectors have EMBEDDING_DIM entries.
abbrev pub IsValid : List VectorRecord → Type 0
IsValid [] = Unit
IsValid (r ∷ rs) =
    (chunk_at r.event_id r.chunk_index rs ≡ none)
    × (length r.embedding ≡ embedding_dim)
    × IsValid rs

pub upsert-IsValid :
    (r : VectorRecord) (rs : List VectorRecord)
    → length r.embedding ≡ embedding_dim
    → IsValid rs
    → IsValid (upsert r rs)
unfolding upsert
upsert-IsValid r [] d h = (unfold chunk_at in refl, d, tt)
upsert-IsValid r (q ∷ rs) d (alone, dim, rest) =
    elim (Bool-cases (str_eq q.event_id r.event_id && (q.chunk_index == r.chunk_index))) [
      | inl same ↦ rw same (ground (arith, same, eq_iff q.event_id r.event_id, alone), d, rest)
      | inr other' ↦ rw other' (
        chunk_at-upsert q.event_id q.chunk_index r rs
            ∙ ground
                (arith, other', eq_iff q.event_id r.event_id, eq_iff r.event_id q.event_id, alone),
        dim,
        upsert-IsValid r rs d rest,
      )
    ]

pub select-IsValid :
    (e : String) (n : ℕ) (rs : List VectorRecord)
    → IsValid rs
    → IsValid (select (λ r. not (str_eq r.event_id e && leb n r.chunk_index)) rs)
unfolding select
select-IsValid e n [] h = tt
select-IsValid e n (r ∷ rs) (alone, dim, rest) =
    elim (Bool-cases (str_eq r.event_id e && leb n r.chunk_index)) [
      | inl orphan ↦ rw orphan (select-IsValid e n rs rest)
      | inr kept ↦ rw kept (
        chunk_at-select e r.event_id r.chunk_index n rs ∙ ground (arith, alone),
        dim,
        select-IsValid e n rs rest,
      )
    ]
