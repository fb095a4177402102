-- ===== src/Split/Gate.antt =====
-- The gate on the release of a split set.
use knovaryn.Base.{ℕ, ◌<◌, ◌≡◌, Bool, true, ◌↔◌, ◌⊎◌, ◌≢◌, arith, ==_iff}
use knovaryn.Split.{evaluate_split_release}

-- A split set may be released exactly if it has training rows and it is not train-only on a single
-- source group, or that has been allowed.
pub evaluate_split_release_iff :
    (train_count validation_count test_count source_group_count : ℕ) (allowance : Bool)
    → ((evaluate_split_release train_count validation_count test_count source_group_count
          allowance).ok
        ≡ true)
      ↔ ((0 < train_count)
          × ((0 < validation_count)
              ⊎ ((0 < test_count) ⊎ ((source_group_count ≢ 1) ⊎ (allowance ≡ true)))))
unfolding evaluate_split_release
evaluate_split_release_iff train_count validation_count test_count source_group_count allowance =
    ground (
      arith,
      ==_iff train_count 0,
      ==_iff validation_count 0,
      ==_iff test_count 0,
      ==_iff source_group_count 1,
    )
