-- ===== src/HealthChecker/Jobs/Covers.antt =====
-- The jobs cover the positions.
use multichain_liquidator_bo.Base.{
  ℕ, zero, suc, ◌+◌, ◌-◌, ◌<◌, ◌≤◌, ◌≡◌, refl, sym, ap, ◌∙◌, some, List, [], ◌∷◌, map, arith,
  dec_lt, length, take, drop, lt→ltb, le→not_ltb, length-drop, length-take, take_all, drop_all, min,
}
use multichain_liquidator_bo.Runtime.Helpers.{IsChunked, nil-IsChunked, cons-IsChunked}
use multichain_liquidator_bo.Manager.Pages.Covers.{offsets}
use multichain_liquidator_bo.HealthChecker.Jobs.{Job, add_job, jobs_loop, generate_jobs}

abbrev pub args_of : {P : Type 0} → Job P → List P
args_of job = job.args

abbrev pub id_of : {P : Type 0} → Job P → ℕ
id_of job = job.id

module _ {P : Type 0} where
  -- The jobs of the positions from index `i` on: their arguments are those positions in groups, and
  -- their IDs are the indices at which the groups begin.
  pub record IsSplit (size : ℕ) (positions : List P) (i : ℕ) (jobs : List (Job P)) : Type 0 where
    pub chunked : IsChunked size (drop i positions) (map args_of jobs)
    pub ids : map id_of jobs ≡ offsets size (length jobs) i

  drop-drop : (n m : ℕ) (xs : List P) → drop m (drop n xs) ≡ drop (n + m) xs
  drop-drop zero m xs = ap (λ (k : ℕ). drop k xs) (let e : m ≡ 0 + m = omega arith in e)
  drop-drop (suc n) m [] = drop_all m [] (omega arith) ∙ sym (drop_all (suc n + m) [] (omega arith))
  drop-drop (suc n) m (x ∷ xs) =
      drop-drop n m xs
      ∙ ap (λ (k : ℕ). drop k (x ∷ xs)) (let e : suc (n + m) ≡ suc n + m = omega arith in e)

  take-min : (n size : ℕ) (xs : List P) → n ≡ length xs → take (min n size) xs ≡ take size xs
  take-min n size xs e = elim (dec_lt n size) [
    | yes h ↦
        ap (λ (k : ℕ). take k xs) (let m : min n size ≡ n = omega arith in m)
        ∙ take_all n xs (omega arith)
        ∙ sym (take_all size xs (omega arith))
    | no h ↦ ap (λ (k : ℕ). take k xs) (let m : min n size ≡ size = omega arith in m)
  ]

  add_job_some :
      (i : ℕ) (slice : List P) (jobs : List (Job P))
      → 0 < length slice
      → add_job i slice jobs ≡ record { id = i; args = slice } ∷ jobs
  unfolding add_job
  add_job_some i [] jobs h = absurd (omega arith)
  add_job_some i (p ∷ ps) jobs h = refl

  round_slice :
      (positions : List P) (i size : ℕ)
      → take (i + min (length positions - i) size - i) (drop i positions)
        ≡ take size (drop i positions)
  round_slice positions i size =
      let n = length positions - i in
      ap (λ (k : ℕ). take k (drop i positions))
        (let e : i + min n size - i ≡ min n size = omega arith in e)
      ∙ take-min n size (drop i positions) (sym (length-drop i positions))

  -- A round that finds positions left.
  loop_round :
      (f : ℕ) (positions : List P) (size i : ℕ) (jobs : List (Job P))
      → i < length positions
      → 0 < size
      → jobs_loop f positions size (i + size) ≡ some jobs
      → jobs_loop (suc f) positions size i
        ≡ some (record { id = i; args = take size (drop i positions) } ∷ jobs)
  unfolding jobs_loop
  loop_round f positions size i jobs h p e =
      rw (lt→ltb i (length positions) h, e, round_slice positions i size)
        (ap some (
          add_job_some i (take size (drop i positions)) jobs
            (omega (arith, length-take size (drop i positions), length-drop i positions))))

  loop_end :
      (f : ℕ) (positions : List P) (size i : ℕ)
      → length positions ≤ i
      → jobs_loop (suc f) positions size i ≡ some []
  unfolding jobs_loop
  loop_end f positions size i h = rw (le→not_ltb i (length positions) h) refl

  jobs_loop-IsSplit :
      (f : ℕ) (positions : List P) (size i : ℕ)
      → length positions - i < f
      → 0 < size
      → (jobs : List (Job P)) × (jobs_loop f positions size i ≡ some jobs)
        × IsSplit size positions i jobs
  jobs_loop-IsSplit zero positions size i h p = absurd (omega arith)
  jobs_loop-IsSplit (suc f) positions size i h p = elim (dec_lt i (length positions)) [
    | yes more ↦
        let (jobs, e, split) = jobs_loop-IsSplit f positions size (i + size) (omega arith) p in
        (
          record { id = i; args = take size (drop i positions) } ∷ jobs,
          loop_round f positions size i jobs more p e,
          record {
            chunked =
                cons-IsChunked size (drop i positions) (map args_of jobs)
                  (omega (arith, length-drop i positions)) p
                  (rw (drop-drop i size positions) split.chunked);
            ids = ap (i ∷◌) split.ids;
          },
        )
    | no done ↦ (
      [],
      loop_end f positions size i (omega arith),
      record {
        chunked = rw (drop_all i positions (omega arith)) (nil-IsChunked size p);
        ids = refl;
      },
    )
  ]

  -- With a job size above 0 the loop ends: the jobs' arguments joined are the positions in order,
  -- no job is empty or larger than the size, their number is that of the positions divided by the
  -- size, rounded up, and the IDs are the indices at which the jobs begin.
  pub generate_jobs-IsSplit :
      (positions : List P) (size : ℕ)
      → 0 < size
      → (jobs : List (Job P)) × (generate_jobs positions size ≡ some jobs)
        × IsChunked size positions (map args_of jobs)
        × (map id_of jobs ≡ offsets size (length jobs) 0)
  unfolding generate_jobs
  generate_jobs-IsSplit positions size p =
      let (jobs, e, split) =
        jobs_loop-IsSplit (suc (length positions)) positions size 0 (omega arith) p in
      (jobs, e, split.chunked, split.ids)
