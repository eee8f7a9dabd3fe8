-- ===== src/Json.antt =====
-- The values that cross the wire as JSON (judge/harness.py, backend/worker/aggregate.py).
-- Numbers are Python's `int` and `float` values other than NaN, behind the interface `Number`; an
-- object is the list of its keys and values, in order.
use Prim.Native.String.{String}
use shikomi.Prelude.{ℕ, ◌≡◌, ◌==◌, Bool, true, Option, none, some, List, [], ◌∷◌, if◌then◌else◌}
use shikomi.Prelude.Text.{str_eq}

pub record Number : Type 1 where
  pub N : Type 0
  -- Python's `==` on two numbers
  pub eq : N → N → Bool
  pub eq_refl : (a : N) → eq a a ≡ true
  pub eq_sym : (a b : N) → eq a b ≡ eq b a
  pub eq_trans : (a b c : N) → eq a b ≡ true → eq b c ≡ true → eq a c ≡ true
  -- whether `math.isnan` and `math.isfinite` take the number: an int past every float makes them raise
  pub fits : N → Bool
  -- `abs(a - b) <= eps`; `none` where an int past every float meets a float, which raises
  pub within : N → N → N → Option Bool
  pub add : N → N → N
  -- `round(x, 3)`
  pub round3 : N → N
  -- the number an `int` or a `bool` (0 or 1) equals
  pub of_ℕ : ℕ → N
  pub eq-of_ℕ : (a b : ℕ) → eq (of_ℕ a) (of_ℕ b) ≡ (a == b)

mutual
  pub data Json (N : Type 0) : Type 0 where
    null : Json N
    bool : Bool → Json N
    num : N → Json N
    str : String → Json N
    arr : Items N → Json N
    obj : Fields N → Json N

  pub data Items (N : Type 0) : Type 0 where
    nil : Items N
    cons : Json N → Items N → Items N

  pub data Fields (N : Type 0) : Type 0 where
    end : Fields N
    field : String → Json N → Fields N → Fields N

module _ {N : Type 0} where
  -- The items of a list as a list.
  abbrev pub to_list : Items N → List (Json N)
  to_list nil = []
  to_list (cons x xs) = x ∷ to_list xs

  -- `d.get(k)`
  abbrev pub get : String → Fields N → Option (Json N)
  get k end = none
  get k (field j v fs) = if str_eq j k then some v else get k fs
