-- ===== src/Fleet/Runtime/Percentiles.antt =====
-- The percentiles of runtimePercentiles in internal/fleet/runtime.go.
use k8s.Prelude.{ℕ, zero, suc, ◌<◌, ◌≤◌, ◌≡◌, refl, ap, ◌∙◌, List, [], ◌∷◌, arith, length, get_or}
use k8s.Prelude.Int.{pos, ◌≤ℤ◌}
use k8s.Fleet.Types.{Float64}
use k8s.Fleet.Runtime.Timings.{
  FloatOps, insert_value, sort_values, percentile_index, runtime_percentile, runtime_percentiles,
}

abbrev Ascending : List Float64 → Type 0
Ascending [] = Unit
Ascending (v ∷ []) = Unit
Ascending (v ∷ u ∷ us) = (v ≤ℤ u) × Ascending (u ∷ us)

insert_value-Ascending :
    (v : Float64) (us : List Float64) → Ascending us → Ascending (insert_value v us)
unfolding insert_value
insert_value-Ascending v [] o = tt
insert_value-Ascending v (u ∷ []) o = ground arith
insert_value-Ascending v (u ∷ t ∷ us) o = ground (arith, insert_value-Ascending v (t ∷ us) o.1)

sort_values-Ascending : (vs : List Float64) → Ascending (sort_values vs)
unfolding sort_values
sort_values-Ascending [] = tt
sort_values-Ascending (v ∷ vs) =
    insert_value-Ascending v (sort_values vs) (sort_values-Ascending vs)

insert_value-length :
    (v : Float64) (us : List Float64) → length (insert_value v us) ≡ suc (length us)
unfolding insert_value
insert_value-length v [] = refl
insert_value-length v (u ∷ us) = ground (arith, insert_value-length v us)

get_or_mono :
    (vs : List Float64) (i j : ℕ)
    → Ascending vs
    → i ≤ j
    → j < length vs
    → get_or vs i (pos 0) ≤ℤ get_or vs j (pos 0)
get_or_mono [] i j o h k = absurd (omega (arith, k))
get_or_mono (v ∷ vs) zero zero o h k = omega arith
get_or_mono (v ∷ []) zero (suc j) o h k = absurd (omega (arith, k))
get_or_mono (v ∷ u ∷ us) zero (suc j) o h k =
    omega (arith, o.0, get_or_mono (u ∷ us) zero j o.1 (omega arith) (omega (arith, k)))
get_or_mono (v ∷ vs) (suc i) zero o h k = absurd (omega (arith, h))
get_or_mono (v ∷ []) (suc i) (suc j) o h k = absurd (omega (arith, k))
get_or_mono (v ∷ u ∷ us) (suc i) (suc j) o h k =
    get_or_mono (u ∷ us) i j o.1 (omega (arith, h)) (omega (arith, k))

sort_values-length : (vs : List Float64) → length (sort_values vs) ≡ length vs
unfolding sort_values
sort_values-length [] = refl
sort_values-length (v ∷ vs) =
    insert_value-length v (sort_values vs) ∙ ap suc (sort_values-length vs)

module _ (f : FloatOps) where
  percentile_index_in : (percent n : ℕ) → 0 < n → percentile_index f percent n < n
  unfolding percentile_index
  percentile_index_in percent n h = ground arith

  percentile_index_mono :
      (p q n : ℕ) → f.rank p n ≤ f.rank q n → percentile_index f p n ≤ percentile_index f q n
  unfolding percentile_index
  percentile_index_mono p q n h = ground arith

  runtime_percentile_mono :
      (vs : List Float64) (p q : ℕ)
      → Ascending vs
      → 0 < length vs
      → f.rank p (length vs) ≤ f.rank q (length vs)
      → runtime_percentile f vs p ≤ℤ runtime_percentile f vs q
  unfolding runtime_percentile
  runtime_percentile_mono vs p q o nonempty h =
      get_or_mono vs (percentile_index f p (length vs)) (percentile_index f q (length vs)) o
        (percentile_index_mono p q (length vs) h) (percentile_index_in q (length vs) nonempty)

  -- Of any values, the p50 is at most the p95, and the p95 at most the p99, if the machine's rank
  -- does not decrease with the percentage.
  pub runtime_percentiles_ordered :
      (vs : List Float64)
      → ((p q n : ℕ) → p ≤ q → f.rank p n ≤ f.rank q n)
      → ((runtime_percentiles f vs).p50 ≤ℤ (runtime_percentiles f vs).p95)
        × ((runtime_percentiles f vs).p95 ≤ℤ (runtime_percentiles f vs).p99)
  unfolding runtime_percentiles
  runtime_percentiles_ordered [] mono = (omega arith, omega arith)
  runtime_percentiles_ordered (v ∷ vs) mono =
      let sorted = sort_values (v ∷ vs) in
      let o = sort_values-Ascending (v ∷ vs) in
      let n : 0 < length sorted = rw (sort_values-length (v ∷ vs)) (omega arith) in
      (
        runtime_percentile_mono sorted 50 95 o n (mono 50 95 (length sorted) (omega arith)),
        runtime_percentile_mono sorted 95 99 o n (mono 95 99 (length sorted) (omega arith)),
      )
