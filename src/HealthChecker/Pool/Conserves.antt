-- ===== src/HealthChecker/Pool/Conserves.antt =====
-- No job of the pool is executed twice, and none is lost before the pool's results are.
use mathlib.Core.List.{Perm, perm_middle}
use mathlib.Core.List.Perm
use multichain_liquidator_bo.Base.{
  ℕ, ◌+◌, ◌<◌, ◌≡◌, refl, sym, ap, ap₂, ◌∙◌, subst, true, List, [], ◌∷◌, ◌++◌, map, append-nil,
  append_assoc, arith, length, length-append,
}
use multichain_liquidator_bo.HealthChecker.Pool.{
  Pool, start, Step, send_job, close_jobs, take_job, send_result, stop_worker, close_done, receive,
  return_results, Reach, here, next,
}

module _ {J R : Type 0} (workers : ℕ) (exec : J → R) where
  -- All results there are or will be: received, waiting, held by a worker, or of jobs not executed.
  abbrev pub all_results : Pool J R → List R
  all_results s = s.received ++ (s.results ++ (s.held ++ map exec (s.jobs ++ s.unsent)))

  -- A worker has returned only after every job was sent and taken.
  pub record IsOrdered (s : Pool J R) : Type 0 where
    pub staffed : s.idle + length s.held + s.stopped ≡ workers
    pub sent : s.jobs_closed ≡ true → s.unsent ≡ []
    pub drained : 0 < s.stopped → (s.jobs_closed ≡ true) × (s.jobs ≡ [])
    pub finished : s.done ≡ true → s.stopped ≡ workers
    pub seen : s.returned ≡ true → s.done ≡ true

  pub start-IsOrdered : (jobs : List J) → IsOrdered (start workers jobs)
  unfolding start
  start-IsOrdered jobs = ground arith

  Step-IsOrdered : {s s' : Pool J R} → Step workers exec s s' → IsOrdered s → IsOrdered s'
  Step-IsOrdered (send_job j js a b e) h = ground arith
  Step-IsOrdered (close_jobs a b e) h = ground arith
  Step-IsOrdered (take_job j js n a b e) h = ground arith
  Step-IsOrdered {s} (send_result before after r a b e) h =
      ground (arith, length-append before (r ∷ after), length-append before after)
  Step-IsOrdered (stop_worker n a b c e) h = ground arith
  Step-IsOrdered (close_done a b e) h = ground arith
  Step-IsOrdered (receive r rs a b e) h = ground arith
  Step-IsOrdered (return_results a b e) h = ground arith

no_items : {R : Type 0} (xs : List R) → length xs ≡ 0 → xs ≡ []
no_items [] h = refl
no_items (x ∷ xs) h = absurd (omega arith)

perm_of_eq : {R : Type 0} {xs ys : List R} → xs ≡ ys → Perm xs ys
perm_of_eq {xs = xs} e = subst (λ (zs : List _). Perm xs zs) e (Perm.refl xs)

-- An item at the end of one list moves to the front of the next.
move_item : {R : Type 0} (xs ys : List R) (x : R) → (xs ++ x ∷ []) ++ ys ≡ xs ++ x ∷ ys
move_item xs ys x = append_assoc xs (x ∷ []) ys

move_result :
    {R : Type 0} (q before after m : List R) (r : R)
    → Perm (q ++ ((before ++ r ∷ after) ++ m)) ((q ++ r ∷ []) ++ ((before ++ after) ++ m))
move_result q before after m r =
    Perm.trans (Perm.append_left q (Perm.append_right m (perm_middle before after)))
      (perm_of_eq (sym (move_item q ((before ++ after) ++ m) r)))

module _ {J R : Type 0} (workers : ℕ) (exec : J → R) where
  abbrev all : Pool J R → List R
  all s = all_results workers exec s

  Step-perm : {s s' : Pool J R} → Step workers exec s s' → Perm (all s) (all s')
  Step-perm {s} (send_job j js a b e) =
      subst (λ (u : Pool J R). Perm (all s) (all u)) (sym e)
        (perm_of_eq (
          ap (λ (l : List J). s.received ++ (s.results ++ (s.held ++ map exec l)))
            (ap (s.jobs ++◌) a ∙ sym (move_item s.jobs js j))))
  Step-perm {s} (close_jobs a b e) =
      subst (λ (u : Pool J R). Perm (all s) (all u)) (sym e) (Perm.refl (all s))
  Step-perm {s} (take_job j js n a b e) =
      subst (λ (u : Pool J R). Perm (all s) (all u)) (sym e)
        (Perm.trans
          (perm_of_eq (
            ap (λ (l : List J). s.received ++ (s.results ++ (s.held ++ map exec (l ++ s.unsent))))
              a))
          (Perm.append_left s.received
            (Perm.append_left s.results (perm_middle s.held (map exec (js ++ s.unsent))))))
  Step-perm {s} (send_result before after r a b e) =
      subst (λ (u : Pool J R). Perm (all s) (all u)) (sym e)
        (Perm.trans
          (perm_of_eq (
            ap (λ (l : List R). s.received ++ (s.results ++ (l ++ map exec (s.jobs ++ s.unsent))))
              a))
          (Perm.append_left s.received
            (move_result s.results before after (map exec (s.jobs ++ s.unsent)) r)))
  Step-perm {s} (stop_worker n a b c e) =
      subst (λ (u : Pool J R). Perm (all s) (all u)) (sym e) (Perm.refl (all s))
  Step-perm {s} (close_done a b e) =
      subst (λ (u : Pool J R). Perm (all s) (all u)) (sym e) (Perm.refl (all s))
  Step-perm {s} (receive r rs a b e) =
      subst (λ (u : Pool J R). Perm (all s) (all u)) (sym e)
        (perm_of_eq (
          ap (λ (l : List R). s.received ++ (l ++ (s.held ++ map exec (s.jobs ++ s.unsent)))) a
          ∙ sym (move_item s.received (rs ++ (s.held ++ map exec (s.jobs ++ s.unsent))) r)))
  Step-perm {s} (return_results a b e) =
      subst (λ (u : Pool J R). Perm (all s) (all u)) (sym e) (Perm.refl (all s))

  Reach-perm : {s t : Pool J R} → Reach workers exec s t → Perm (all s) (all t)
  Reach-perm {s} here = Perm.refl (all s)
  Reach-perm (next r st) = Perm.trans (Reach-perm r) (Step-perm st)

  pub Reach-IsOrdered :
      {s t : Pool J R}
      → Reach workers exec s t
      → IsOrdered workers exec s
      → IsOrdered workers exec t
  Reach-IsOrdered here h = h
  Reach-IsOrdered (next r st) h = Step-IsOrdered workers exec st (Reach-IsOrdered r h)

  -- In every interleaving, what the pool has received, with the results that wait, those that
  -- workers hold and those of the jobs still to be executed, is a rearrangement of the results of
  -- all jobs: no job is executed twice and none is forgotten.
  pub pool_conserves :
      (jobs : List J) {s : Pool J R}
      → Reach workers exec (start workers jobs) s
      → Perm (map exec jobs) (all_results workers exec s)
  unfolding start
  pool_conserves jobs r = Reach-perm r

  -- When `RunWorkerPool` has returned and there is a worker at all, every job has been executed, and
  -- what was received is all of the results but for those left behind in the channel.
  pub pool_returns :
      (jobs : List J) {s : Pool J R}
      → 0 < workers
      → Reach workers exec (start workers jobs) s
      → s.returned ≡ true
      → Perm (map exec jobs) (s.received ++ s.results)
  pool_returns jobs {s} some_worker r e =
      let h = Reach-IsOrdered r (start-IsOrdered workers exec jobs) in
      let stopped : s.stopped ≡ workers = h.finished (h.seen e) in
      let drained = h.drained (omega arith) in
      let unsent : s.unsent ≡ [] = h.sent drained.0 in
      let held : s.held ≡ [] = no_items s.held (omega (arith, h.staffed)) in
      Perm.trans (pool_conserves jobs r) (
        perm_of_eq (
          ap₂ (λ (u v : List R). s.received ++ (s.results ++ (u ++ v))) held
            (ap₂ (λ (u v : List J). map exec (u ++ v)) drained.1 unsent)
          ∙ ap (s.received ++◌) (append-nil s.results)))
