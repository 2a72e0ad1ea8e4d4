-- ===== src/Prelude/Decimal.antt =====
-- Numbers as texts: Python's `str` of an int that is not negative, and joined texts.
use Prim.Native.String.{◌++◌ as ◌+str+◌}
use freshet.Prelude.{
  ℕ, zero, suc, ◌/◌, ◌%◌, String, List, [], ◌∷◌, ltb, get_or, get_elem?, if◌then◌else◌,
}

abbrev digit : ℕ → String
digit n = get_or (get_elem? ("0" ∷ "1" ∷ "2" ∷ "3" ∷ "4" ∷ "5" ∷ "6" ∷ "7" ∷ "8" ∷ "9" ∷ []) n) ""

-- The digits of a number below ten to the `fuel`.
unfoldable pub digits : (fuel : ℕ) → ℕ → String
digits zero n = ""
digits (suc fuel) n =
    let higher = digits fuel (n / 10) in if ltb n 10 then digit n else higher +str+ digit (n % 10)

unfoldable pub decimal : ℕ → String
decimal n = digits (suc n) n

-- `separator.join(texts)`
unfoldable pub joined : String → List String → String
joined separator [] = ""
joined separator (t ∷ []) = t
joined separator (t ∷ u ∷ rest) = t +str+ (separator +str+ joined separator (u ∷ rest))
