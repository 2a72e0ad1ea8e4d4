-- ===== src/Autopilot/Impact/Levels.antt =====
-- The level of an impact by all figures that are stated.
use freshet.Prelude.{
  ℕ, ◌≡◌, refl, ap, ◌∙◌, String, Bool, true, false, ◌&&◌, ◌||◌, not, Option, List, [], ◌∷◌, leb,
  ◌==◌, if◌then◌else◌, arith, length, Bool-cases, inl, inr,
}
use freshet.Prelude.Fraction.{Fraction, fraction_leb, fraction_leb_total, fraction_leb_trans}
use freshet.Autopilot.Impact.{
  World, high, low, medium, stated, biggest, max_of, max_stated_pct, duration, percent, pct_from,
  pct_below, is_long, is_short, classify_impact,
}

-- Some figure is at least so high.
unfoldable pub reaches : Fraction → List Fraction → Bool
reaches floor [] = false
reaches floor (x ∷ xs) = fraction_leb floor x || reaches floor xs

abbrev pub is_nil : List Fraction → Bool
is_nil [] = true
is_nil (x ∷ xs) = false

or_left : (a b : Bool) → (b ≡ true → a ≡ true) → a ≡ a || b
or_left true b h = refl
or_left false false h = refl
or_left false true h = h refl

or_right : (a b : Bool) → (a ≡ true → b ≡ true) → b ≡ a || b
or_right false b h = refl
or_right true b h = h refl

larger-reaches :
    (floor m x : Fraction)
    → fraction_leb floor (if fraction_leb x m then m else x)
      ≡ fraction_leb floor m || fraction_leb floor x
larger-reaches floor m x = elim (Bool-cases (fraction_leb x m)) [
  | inl below ↦ rw below (
      or_left (fraction_leb floor m) (fraction_leb floor x)
        (λ e. fraction_leb_trans floor x m e below))
  | inr above ↦ rw above (
      or_right (fraction_leb floor m) (fraction_leb floor x)
        (λ e. fraction_leb_trans floor m x e (fraction_leb_total x m above)))
]

biggest-reaches :
    (floor m : Fraction) (xs : List Fraction)
    → fraction_leb floor (biggest m xs) ≡ fraction_leb floor m || reaches floor xs
unfolding biggest reaches
biggest-reaches floor m [] = ground arith
biggest-reaches floor m (x ∷ xs) =
    biggest-reaches floor (if fraction_leb x m then m else x) xs
    ∙ ap (λ b. b || reaches floor xs) (larger-reaches floor m x)
    ∙ ground arith

max_of-reaches :
    (floor : ℕ) (xs : List Fraction)
    → (pct_from floor (max_of xs) ≡ reaches (percent floor) xs)
      × (pct_below floor (max_of xs) ≡ not (is_nil xs) && not (reaches (percent floor) xs))
unfolding reaches
max_of-reaches floor [] = (refl, refl)
max_of-reaches floor (x ∷ xs) =
    (biggest-reaches (percent floor) x xs, ap not (biggest-reaches (percent floor) x xs))

-- The impact is high exactly when a sentence about failure states 25 % or more, or three services
-- are affected, or it took an hour or longer. Otherwise it is low exactly when figures are stated,
-- all of them below 5 %, for one service and less than ten minutes, as far as that is known.
pub classify_impact-IsLevel :
    (w : World) (services : List String) (opened_at resolved_at : Option ℕ) (texts : List (List ℕ))
    → let figures = stated w texts in
      let span = duration opened_at resolved_at in
      classify_impact w services opened_at resolved_at texts ≡ (
        if reaches (percent 25) figures || (leb 3 (length services) || is_long span)
        then high
        else if not (is_nil figures)
            && not (reaches (percent 5) figures)
            && ((length services == 1) && is_short span)
        then low
        else medium)
unfolding classify_impact max_stated_pct
classify_impact-IsLevel w services opened_at resolved_at texts =
    let figures = stated w texts in
    let (from, b) = max_of-reaches 25 figures in
    let (a, below) = max_of-reaches 5 figures in rw from (rw below refl)
