-- ===== src/Time/Examples.antt =====
-- Runs of the functions on time, and the theorems at concrete inputs.
use open_coroutine.Prelude.{◌≡◌, refl, [], ◌∷◌, some}
use open_coroutine.Time.{get_time_limit, get_slices}

get_slices_runs : get_slices 30 25 10 ≡ some (10 ∷ 10 ∷ 5 ∷ [])
unfolding get_slices
get_slices_runs = refl

get_slices_exact : get_slices 30 20 10 ≡ some (10 ∷ 10 ∷ [])
unfolding get_slices
get_slices_exact = refl

get_time_limit_runs : get_time_limit 1 500 ≡ 1_000_500_000
unfolding get_time_limit
get_time_limit_runs = refl
