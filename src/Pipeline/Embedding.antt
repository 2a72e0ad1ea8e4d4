-- ===== src/Pipeline/Embedding.antt =====
-- freshet/pipeline/embedding.py: the embedders and the setting of their floors. Floats are a type of
-- the world, with the arithmetic that is used; the model, the hash, the random numbers, `float`,
-- `int` and the environment are functions of the world too. A number of threads below zero is zero.
pub mod Settings
use Prim.Native.String.{◌++◌ as ◌+str+◌}
use freshet.Prelude.{
  ℕ, zero, suc, String, Bool, Option, none, some, List, [], ◌∷◌, map, ◌==◌, str_eq, if◌then◌else◌,
  get_or,
}
use freshet.Prelude.Exec.{Result, ok, err, other}
use freshet.Prelude.Decimal.{joined}
use freshet.Pipeline.Embedder.{embedding_dim}

abbrev pub default_batch : ℕ
default_batch = 32

-- `hundredths n` is the literal of n / 100. `digest` is the first eight bytes of the hash as a
-- number, `uniform seed i` the random number i of a seed, and `general_9` the format `.9g`.
pub record World (F : Type 0) : Type 0 where
  pub hundredths : ℕ → F
  pub add : F → F → F
  pub mul : F → F → F
  pub div : F → F → F
  pub sqrt : F → F
  pub is_zero : F → Bool
  pub digest : String → ℕ
  pub uniform : (seed i : ℕ) → F
  pub general_9 : F → String
  pub env : String → Option String
  pub float : String → Result F
  pub int : String → Result ℕ
  pub has_transformers : Bool
  pub has_torch : Bool
  pub load : String → Result (Unit {0})
  pub model : (name : String) (batch_size : ℕ) → List String → Result (List (List F))

pub data Backend : Type 0 where
  stub transformer : Backend

pub record Embedder (F : Type 0) : Type 0 where
  pub backend : Backend
  pub name : String
  pub query_instruction : String
  pub min_similarity : F
  pub min_similarity_centered : Option F
  pub batch_size : ℕ

-- `_apply_query_instruction`
unfoldable pub apply_query_instruction : String → List String → List String
apply_query_instruction instruction texts =
    if str_eq instruction "" then texts else map (λ t. instruction +str+ (" " +str+ t)) texts

-- `if value:` of an optional text
unfoldable pub given : Option String → Option String
given none = none
given (some s) = if str_eq s "" then none else some s

module _ {F : Type 0} (w : World F) where
  -- MIN_SIMILARITY_MINILM, MIN_SIMILARITY_BGE, MIN_SIMILARITY_BGE_CENTERED
  abbrev pub min_similarity_minilm : F
  min_similarity_minilm = w.hundredths 30

  abbrev pub min_similarity_bge : F
  min_similarity_bge = w.hundredths 70

  abbrev pub min_similarity_bge_centered : F
  min_similarity_bge_centered = w.hundredths 44

  unfoldable pub uniforms : (seed i count : ℕ) → List F
  uniforms seed i zero = []
  uniforms seed i (suc count) = w.uniform seed i ∷ uniforms seed (suc i) count

  unfoldable pub sum_squares : F → List F → F
  sum_squares total [] = total
  sum_squares total (x ∷ xs) = sum_squares (w.add total (w.mul x x)) xs

  -- `norm or 1.0`
  unfoldable pub norm_of : List F → F
  norm_of v =
      let norm = w.sqrt (sum_squares (w.hundredths 0) v) in
      if w.is_zero norm then w.hundredths 100 else norm

  -- `_vec`
  unfoldable pub vec : String → List F
  vec text = let v = uniforms (w.digest text) 0 embedding_dim in map (λ x. w.div x (norm_of v)) v

  unfoldable pub encode : Embedder F → List String → Result (List (List F))
  encode e texts = elim e.backend [
    | stub ↦ ok (map vec texts)
    | transformer ↦ w.model e.name e.batch_size texts
  ]

  unfoldable pub encode_query : Embedder F → List String → Result (List (List F))
  encode_query e texts = elim e.backend [
    | stub ↦ encode e texts
    | transformer ↦ encode e (apply_query_instruction e.query_instruction texts)
  ]

  -- `_cap_torch_threads`: the number of threads that is set, where one is
  unfoldable pub cap_torch_threads : Result (Option ℕ)
  cap_torch_threads = elim (w.int (get_or (w.env "FRESHET_TORCH_THREADS") "2")) [
    | ok threads ↦ ok (if threads == 0 then none else if w.has_torch then some threads else none)
    | err x ↦ err x
  ]

  abbrev pub after_load : Embedder F → Result (Unit {0}) → Result (Embedder F)
  after_load e (ok u) = ok e
  after_load e (err x) = err x

  abbrev pub after_cap : Embedder F → Result (Option ℕ) → Result (Embedder F)
  after_cap e (err x) = err x
  after_cap e (ok threads) = after_load e (w.load e.name)

  -- `SentenceTransformerEmbedder(...)`, for the attributes that it is to have
  unfoldable pub make_transformer : Embedder F → Result (Embedder F)
  make_transformer e = if w.has_transformers then after_cap e cap_torch_threads else err other

  abbrev pub stub_embedder : Embedder F
  stub_embedder = record {
    backend = stub;
    name = "stub";
    query_instruction = "";
    min_similarity = min_similarity_minilm;
    min_similarity_centered = none;
    batch_size = default_batch;
  }

  abbrev pub bge_embedder : Embedder F
  bge_embedder = record {
    backend = transformer;
    name = "BAAI/bge-base-en-v1.5";
    query_instruction = "Represent this sentence for searching relevant passages:";
    min_similarity = min_similarity_bge;
    min_similarity_centered = some min_similarity_bge_centered;
    batch_size = default_batch;
  }

  -- The embedder of a kind, before the overrides.
  unfoldable pub base_embedder : String → Result (Embedder F)
  base_embedder kind =
      if str_eq kind "stub"
      then ok stub_embedder
      else if str_eq kind "minilm"
      then err other
      else if str_eq kind "bge"
      then make_transformer bge_embedder
      else err other

  unfoldable pub with_floor : Option String → Embedder F → Result (Embedder F)
  with_floor none e = ok e
  with_floor (some s) e = elim (w.float s) [
    | ok x ↦ ok (record e { min_similarity = x })
    | err x ↦ err x
  ]

  unfoldable pub with_centered : Option String → Result (Embedder F) → Result (Embedder F)
  with_centered s (err x) = err x
  with_centered none (ok e) = ok e
  with_centered (some s) (ok e) = elim (w.float s) [
    | ok x ↦ ok (record e { min_similarity_centered = some x })
    | err x ↦ err x
  ]

  abbrev pub overridden : Result (Embedder F) → Result (Embedder F)
  overridden (err x) = err x
  overridden (ok e) =
      with_centered (given (w.env "FRESHET_MIN_SIMILARITY_CENTERED"))
        (with_floor (given (w.env "FRESHET_MIN_SIMILARITY")) e)

  unfoldable pub make_embedder : String → Result (Embedder F)
  make_embedder kind = overridden (base_embedder kind)

  -- `vec_literal`
  unfoldable pub vec_literal : List F → String
  vec_literal v = "[" +str+ (joined "," (map w.general_9 v) +str+ "]")
