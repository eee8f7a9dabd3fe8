-- ===== src/Tests/Compare.antt =====
-- The comparison modes at small lists.
use shikomi.Prelude.{
  ℕ, ◌≡◌, ◌↔◌, refl, true, false, none, some, List, [], ◌∷◌, length, ◌==◌, if◌then◌else◌,
}
use shikomi.Json.{Json, num, bool, arr, nil, cons, Items, to_list}
use shikomi.Harness.Multiset.{remove_all, occurrences}
use shikomi.Harness.Compare.{
  Key, tuple, key, no_keys, num_key, counter_keys, hashable_key, json_equal, multiset_equal,
  compare,
}
use shikomi.Harness.Compare.Modes.{multiset_equal-remove_all, multiset_equal_iff}
use shikomi.Tests.Instances.{numbers}

-- [2, [1]] and [[1], 2]
abbrev answer : Items ℕ
answer = cons (num 2) (cons (arr (cons (num 1) nil)) nil)

abbrev wanted : Items ℕ
wanted = cons (arr (cons (num 1) nil)) (cons (num 2) nil)

abbrev answer_keys : List (Key ℕ)
answer_keys = num_key 2 ∷ tuple (key (num_key 1) no_keys) ∷ []

abbrev wanted_keys : List (Key ℕ)
wanted_keys = tuple (key (num_key 1) no_keys) ∷ num_key 2 ∷ []

answer-keys : counter_keys (to_list answer) ≡ some answer_keys
unfolding counter_keys
answer-keys = refl

wanted-keys : counter_keys (to_list wanted) ≡ some wanted_keys
unfolding counter_keys
wanted-keys = refl

multiset_equal-remove_all_example : multiset_equal numbers (arr answer) (arr wanted) ≡ (
    if length (to_list answer) == length (to_list wanted)
    then remove_all (json_equal numbers) (to_list answer) (to_list wanted)
    else false)
multiset_equal-remove_all_example =
    multiset_equal-remove_all numbers answer wanted answer_keys wanted_keys answer-keys wanted-keys

multiset_equal_iff_example : (multiset_equal numbers (arr answer) (arr wanted) ≡ true) ↔ (
    (length (to_list answer) ≡ length (to_list wanted))
    × ((z : Json ℕ) (k : Key ℕ)
        → hashable_key z ≡ some k
        → occurrences (json_equal numbers) z (to_list answer)
          ≡ occurrences (json_equal numbers) z (to_list wanted)))
multiset_equal_iff_example =
    multiset_equal_iff numbers answer wanted answer_keys wanted_keys answer-keys wanted-keys

-- The order is ignored in `unordered` mode only, and `true` is not 1 in any mode.
unordered_passes :
    compare numbers 0 (arr answer) (arr wanted) (record { mode = some "unordered"; epsilon = none })
    ≡ some true
unfolding compare
unordered_passes = refl

exact_fails :
    compare numbers 0 (arr answer) (arr wanted) (record { mode = none; epsilon = none })
    ≡ some false
unfolding compare
exact_fails = refl

true_is_not_one :
    compare numbers 0
      (arr (cons (bool true) nil))
      (arr (cons (num 1) nil))
      (record { mode = some "unordered"; epsilon = none })
    ≡ some false
unfolding compare
true_is_not_one = refl
