-- ===== src/HealthChecker/Pool/Ends.antt =====
-- The pool neither deadlocks nor runs for ever.
use multichain_liquidator_bo.Base.{
  ℕ, zero, suc, ◌+◌, ◌*◌, ◌<◌, ◌≤◌, ◌≡◌, refl, Bool, true, false, List, [], ◌∷◌, ◌⊎◌, inl, inr,
  arith, length, length-append,
}
use multichain_liquidator_bo.HealthChecker.Pool.{
  Pool, start, Step, send_job, close_jobs, take_job, send_result, stop_worker, close_done, receive,
  return_results, Reach, here, next,
}
use multichain_liquidator_bo.HealthChecker.Pool.Conserves.{
  IsOrdered, start-IsOrdered, Reach-IsOrdered,
}

-- What a flag that is still to be set counts for.
abbrev pending : Bool → ℕ
pending true = 0
pending false = 1

abbrev steps_left : {J R : Type 0} → Pool J R → ℕ
steps_left s =
    4 * length s.unsent
    + 3 * length s.jobs
    + 3 * length s.held
    + length s.results
    + s.idle
    + (pending s.jobs_closed + pending s.done + pending s.returned)

module _ {J R : Type 0} (workers : ℕ) (exec : J → R) where
  -- How many steps a run has taken.
  abbrev pub steps : {s t : Pool J R} → Reach workers exec s t → ℕ
  steps here = 0
  steps (next r st) = suc (steps r)

  Step-steps_left : {s s' : Pool J R} → Step workers exec s s' → steps_left s' < steps_left s
  Step-steps_left {s} (send_job j js a b e) = ground (arith, length-append s.jobs (j ∷ []))
  Step-steps_left (close_jobs a b e) = ground arith
  Step-steps_left (take_job j js n a b e) = ground arith
  Step-steps_left {s} (send_result before after r a b e) = ground (
    arith,
    length-append before (r ∷ after),
    length-append before after,
    length-append s.results (r ∷ []),
  )
  Step-steps_left (stop_worker n a b c e) = ground arith
  Step-steps_left (close_done a b e) = ground arith
  Step-steps_left {s} (receive r rs a b e) = ground arith
  Step-steps_left (return_results a b e) = ground arith

  steps_bound :
      {s t : Pool J R} (r : Reach workers exec s t) → steps r + steps_left t ≤ steps_left s
  steps_bound here = omega arith
  steps_bound (next r st) = omega (arith, steps_bound r, Step-steps_left st)

  -- A step that some goroutine can take, as long as the pool has not returned.
  abbrev CanStep : Pool J R → Type 0
  CanStep s = (s' : Pool J R) × Step workers exec s s'

  jobs_step :
      (s : Pool J R) (n : ℕ) (jobs unsent : List J) (closed : Bool)
      → IsOrdered workers exec s
      → s.idle ≡ suc n
      → s.jobs ≡ jobs
      → s.unsent ≡ unsent
      → s.jobs_closed ≡ closed
      → CanStep s
  jobs_step s n (j ∷ js) unsent closed h i a b c = (_, take_job j js n a i refl)
  jobs_step s n [] (j ∷ js) closed h i a b c =
      let room : length s.jobs < workers = ground (arith, h.staffed) in
      (_, send_job j js b room refl)
  jobs_step s n [] [] false h i a b c = (_, close_jobs b c refl)
  jobs_step s n [] [] true h i a b c = (_, stop_worker n a c i refl)

  workers_step :
      (s : Pool J R) (idle : ℕ) (held : List R)
      → IsOrdered workers exec s
      → s.idle ≡ idle
      → s.held ≡ held
      → s.results ≡ []
      → s.done ≡ false
      → CanStep s
  workers_step s idle (r ∷ rs) h i a b c =
      let room : length s.results < workers = ground (arith, h.staffed) in
      (_, send_result [] rs r a room refl)
  workers_step s zero [] h i a b c =
      let all : s.stopped ≡ workers = ground (arith, h.staffed) in (_, close_done all c refl)
  workers_step s (suc n) [] h i a b c =
      jobs_step s n s.jobs s.unsent s.jobs_closed h i refl refl refl

  pool_step :
      (s : Pool J R) (results : List R) (done : Bool)
      → IsOrdered workers exec s
      → s.results ≡ results
      → s.done ≡ done
      → s.returned ≡ false
      → CanStep s
  pool_step s (r ∷ rs) done h a b c = (_, receive r rs a c refl)
  pool_step s [] true h a b c = (_, return_results b c refl)
  pool_step s [] false h a b c = workers_step s s.idle s.held h refl refl a b

  returned_or_step :
      (s : Pool J R) (returned : Bool)
      → IsOrdered workers exec s
      → s.returned ≡ returned
      → (s.returned ≡ true) ⊎ CanStep s
  returned_or_step s true h e = inl e
  returned_or_step s false h e = inr (pool_step s s.results s.done h refl refl e)

  -- However the goroutines are interleaved and however many workers there are, a run of the pool has
  -- at most four steps for each job, one for each worker and three more, and where it stands still
  -- `RunWorkerPool` has returned: in every state reached, it has, or some goroutine can take a step.
  pub pool_ends :
      (jobs : List J) {s : Pool J R} (r : Reach workers exec (start workers jobs) s)
      → (steps r ≤ 4 * length jobs + workers + 3)
        × ((s.returned ≡ true) ⊎ ((s' : Pool J R) × Step workers exec s s'))
  unfolding start
  pool_ends jobs {s} r = (
    omega (arith, steps_bound r),
    returned_or_step s s.returned
        (Reach-IsOrdered workers exec r (start-IsOrdered workers exec jobs)) refl,
  )
