-- ===== src/Go/Sort.antt =====
-- `sort.Slice` and `sort.Strings`, as an insertion sort by a strict order on text keys. The calls
-- sort by keys that are distinct, or texts themselves, so that any sorting algorithm gives this list.
pub mod Ordered
use go_acp_server.Base.{String, List, [], ◌∷◌, if◌then◌else◌}
use go_acp_server.Go.Text.{str_lt}

module _ {ℓ} {A : Type ℓ} (key : A → String) where
  unfoldable pub insert_sorted : A → List A → List A
  insert_sorted x [] = x ∷ []
  insert_sorted x (y ∷ ys) = if str_lt (key y) (key x) then y ∷ insert_sorted x ys else x ∷ y ∷ ys

  unfoldable pub sort_by : List A → List A
  unfolding insert_sorted
  sort_by [] = []
  sort_by (x ∷ xs) = insert_sorted x (sort_by xs)
