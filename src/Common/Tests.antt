-- ===== src/Common/Tests.antt =====
-- A subscription to events and data, over nine bytes.
use serialmux.Prelude.{ℕ, ◌≡◌, some, List, [], ◌∷◌, length, drop, arith}
use serialmux.Common.{SubscriptionParams, filter_to_vector, vector_to_filter}
use serialmux.Common.Filters.{vector_to_filter-filter_to_vector}

abbrev wanted : SubscriptionParams
wanted = record { filter = 0x80000012; unreliable = 16 }

abbrev room : List ℕ
room = 0 ∷ 0 ∷ 0 ∷ 0 ∷ 0 ∷ 0 ∷ 0 ∷ 0 ∷ 7 ∷ []

vector_to_filter-filter_to_vector_example :
    (written : List ℕ) × (filter_to_vector wanted room ≡ some written)
    × (vector_to_filter written ≡ some wanted)
    × (length written ≡ 9)
    × (drop 8 written ≡ 7 ∷ [])
vector_to_filter-filter_to_vector_example =
    vector_to_filter-filter_to_vector wanted room
      (record { filter-lt = omega arith; unreliable-lt = omega arith }) (omega arith)
