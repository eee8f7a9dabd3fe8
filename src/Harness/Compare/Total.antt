-- ===== src/Harness/Compare/Total.antt =====
-- When `compare` raises no exception.
use shikomi.Prelude.{
  and_then, ◌≡◌, refl, Bool, true, false, ◌==◌, Option, none, some, is_some, if◌then◌else◌, length,
}
use shikomi.Prelude.Text.{str_eq}
use shikomi.Json.{Number, Json, null, bool, num, str, arr, obj, Items, nil, cons, to_list}
use shikomi.Harness.Compare.{Comparison, compare, float_equal, items_close, and_also, or_default}

-- Some value in either branch.
pub pick_some :
    {A : Type 0} (b : Bool) (o o' : Option A)
    → is_some o ≡ true
    → is_some o' ≡ true
    → is_some (if b then o else o') ≡ true
pick_some true o o' p q = p
pick_some false o o' p q = q

pub and_then-is_some :
    {A B : Type 0} (o : Option A) (f : A → Option B)
    → is_some o ≡ true
    → ((a : A) → is_some (f a) ≡ true)
    → is_some (and_then o f) ≡ true
and_then-is_some none f h g = h
and_then-is_some (some a) f h g = g a

module _ (number : Number) where
  open number use {N}

  -- No number is too large for the float operations.
  pub record Moderate : Type 0 where
    pub fits_all : (a : N) → number.fits a ≡ true
    pub within_all : (a b eps : N) → is_some (number.within a b eps) ≡ true

  and_also-is_some :
      (a b : Option Bool)
      → is_some a ≡ true
      → is_some b ≡ true
      → is_some (and_also number a b) ≡ true
  and_also-is_some (some true) b h g = g
  and_also-is_some (some false) b h g = refl
  and_also-is_some none b h g = h

  mutual
    unfolding float_equal

    float_equal-is_some :
        (m : Moderate) (eps : N) (a b : Json N) → is_some (float_equal number eps a b) ≡ true
    float_equal-is_some m eps (num a) (num b) =
        rw (m.fits_all a) (pick_some (number.eq a b) _ _ refl (m.within_all a b eps))
    float_equal-is_some m eps (num a) null = refl
    float_equal-is_some m eps (num a) (bool b) = refl
    float_equal-is_some m eps (num a) (str b) = refl
    float_equal-is_some m eps (num a) (arr b) = refl
    float_equal-is_some m eps (num a) (obj b) = refl
    float_equal-is_some m eps (arr xs) (arr ys) =
        pick_some (length (to_list xs) == length (to_list ys)) _ _ (items_close-is_some m eps xs ys)
          refl
    float_equal-is_some m eps (arr xs) null = refl
    float_equal-is_some m eps (arr xs) (bool b) = refl
    float_equal-is_some m eps (arr xs) (num b) = refl
    float_equal-is_some m eps (arr xs) (str b) = refl
    float_equal-is_some m eps (arr xs) (obj b) = refl
    float_equal-is_some m eps null b = refl
    float_equal-is_some m eps (bool a) b = refl
    float_equal-is_some m eps (str a) b = refl
    float_equal-is_some m eps (obj a) b = refl

    items_close-is_some :
        (m : Moderate) (eps : N) (xs ys : Items N) → is_some (items_close number eps xs ys) ≡ true
    items_close-is_some m eps nil ys = refl
    items_close-is_some m eps (cons x xs) nil = refl
    items_close-is_some m eps (cons x xs) (cons y ys) =
        and_also-is_some _ _ (float_equal-is_some m eps x y) (items_close-is_some m eps xs ys)

  pub compare-is_some :
      (m : Moderate) (micro : N) (a b : Json N) (c : Comparison N)
      → is_some (compare number micro a b c) ≡ true
  unfolding compare
  compare-is_some m micro a b c =
      let mode = or_default c.mode "exact" in
      pick_some (str_eq mode "unordered") _ _ refl (
        pick_some (str_eq mode "float_tolerance") _ _
          (float_equal-is_some m (or_default c.epsilon micro) a b)
          (pick_some (str_eq mode "any_of") _ _ refl refl))
