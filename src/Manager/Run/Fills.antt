-- ===== src/Manager/Run/Fills.antt =====
-- What the loop over the blocks leaves in the three queues.
use multichain_liquidator_bo.Base.{
  ℕ, ◌+◌, ◌/◌, ◌<◌, ◌≡◌, refl, ap, ◌∙◌, true, false, Bool, some, List, [], ◌∷◌, ◌++◌, map, All,
}
use multichain_liquidator_bo.Base.Int.{ℤ, dec_int}
use multichain_liquidator_bo.Base.Float.{Float}
use multichain_liquidator_bo.Base.Text.{Text, text_eq}
use multichain_liquidator_bo.Base.Action.{Result, ok, Action}
use multichain_liquidator_bo.Runtime.Types.{WorkItem}
use multichain_liquidator_bo.Runtime.Interfaces.{Lists, QueuerLaws}
use multichain_liquidator_bo.Runtime.Numbers.{Numbers, CacherLaws}
use multichain_liquidator_bo.Manager.Pages.{u64_mod, work_item}
use multichain_liquidator_bo.Manager.Pages.Covers.{offsets}
use multichain_liquidator_bo.Manager.Block.{
  Manager, scale_running, page_size, process_block, then_pages,
}
use multichain_liquidator_bo.Manager.Block.Fills.{process_block_fills}
use multichain_liquidator_bo.Manager.Metrics.{Metric, collect_metrics, submit_metrics}
use multichain_liquidator_bo.Manager.Metrics.Reads.{CountsOnly}
use multichain_liquidator_bo.Manager.Metrics.Reports.{report, collect_metrics_reports}
use multichain_liquidator_bo.Manager.Run.{
  Surroundings, Arrival, report_metrics, submit_collected, handle_block, handle_blocks, after_block,
}

module _ {W F : Type 0} (service : Manager W F) where
  -- Enough rounds of the loop over the pages.
  abbrev pub rounds : ℕ → ℕ
  rounds total = total / page_size service + 3

  -- The queues hold the pages of `total` items and nothing else.
  abbrev pub Filled : (WorkItem → Text) → ℕ → Lists → Type 0
  Filled encode total l =
      (l service.collector_queue_name
        ≡ map (λ (o : ℕ). encode (work_item service.target o (page_size service)))
            (offsets (page_size service) (total / page_size service + 1) 0))
      × (l service.health_check_queue_name ≡ [])
      × (l service.executor_queue_name ≡ [])

module _ {W F : Type 0} (fl : Float F) (env : Surroundings W F) (service : Manager W F)
    (numbers : W → Numbers F) (caches : CacherLaws service.metrics_cache fl.nought numbers)
    (counts_only : All (CountsOnly numbers) service.scalers)
    (starts : (m : Action W (Unit {0})) (w : W) → (env.start m w).0 ≡ ok tt) where
  started : (m : Action W (Unit {0})) (w : W) → env.start m w ≡ (ok tt, (env.start m w).1)
  started m w = ap (λ (r : Result (Unit {0})). (r, (env.start m w).1)) (starts m w)

  -- The metrics never stop a block.
  report_metrics_ends :
      (enabled : Bool) (height : ℤ) (w : W)
      → (v : W) × (report_metrics fl env service enabled height w ≡ (ok tt, v))
  unfolding report_metrics submit_collected
  report_metrics_ends false height w = (w, refl)
  report_metrics_ends true height w =
      let (os, r, answers, read, e) =
        collect_metrics_reports fl service numbers caches counts_only (dec_int height) w in
      let ms = report fl service.chain_id (dec_int height) service.scalers os r in
      let v = (collect_metrics fl service (dec_int height) w).1 in
      let m = submit_metrics env.submit ms in
      (
        (env.start m v).1,
        ap (λ (r : Result (List (Metric F))). submit_collected fl env service (r, v)) e
            ∙ started m v,
      )

  module _ (lists : W → Lists) (queues : QueuerLaws service.queue lists) (encode : WorkItem → Text)
      (encodes : (item : WorkItem) → env.marshal item ≡ ok (encode item))
      (pushes : (k x : Text) (w : W) → (service.queue.push k x w).0 ≡ ok tt)
      (purges : (k : Text) (w : W) → (service.queue.purge k w).0 ≡ ok tt)
      (scales : (running : Bool) (w : W) → (scale_running running service w).0 ≡ ok tt)
      (positive : 0 < page_size service)
      (h : text_eq service.collector_queue_name service.health_check_queue_name ≡ false)
      (e : text_eq service.collector_queue_name service.executor_queue_name ≡ false) where
    handle_block_fills :
        {T : Type 0} (a : Arrival T) (w : W)
        → a.total + page_size service < u64_mod
        → (w' : W) × (handle_block fl env service (rounds service) a w ≡ some (ok tt, w'))
          × Filled service encode a.total (lists w')
    unfolding handle_block then_pages
    handle_block_fills a w fits =
        let (v, reported) =
          report_metrics_ends service.metrics_enabled (env.parse_int a.block.height) w in
        let u = (scale_running a.running service v).1 in
        let scaled = ap (λ (r : Result (Unit {0})). (r, u)) (scales a.running v) in
        let (w', done, cs, hs, es) =
          process_block_fills service lists queues env.marshal encode encodes pushes purges
            a.running a.total v u scaled positive fits h e in
        (
          w',
          ap
                (then_pages
                  (process_block env.marshal service (rounds service a.total) a.running a.total))
                reported
              ∙ done,
          (cs, hs, es),
        )

    -- Where queue and cache keep their contracts, encoding, pushes, purges, scaling and starting a
    -- goroutine succeed, the scalers' counts do not panic and leave the cache as it is, the
    -- collectors' queue has a name of its own, and the page size is above 0 and fits with each total
    -- below 2^64, the loop handles every block without an error and within `total / page_size + 3`
    -- rounds of its loop over the pages, whatever heights the blocks name and whether or not metrics
    -- are collected; behind the last block the collectors' queue holds exactly the pages of the
    -- contract's state at that block, in order, and the other two queues are empty.
    pub handle_blocks_fills :
        {T : Type 0} (arrivals : List (Arrival T)) (last : Arrival T) (w : W)
        → All (λ (a : Arrival T). a.total + page_size service < u64_mod) arrivals
        → last.total + page_size service < u64_mod
        → (w' : W) × (handle_blocks fl env service (rounds service) (arrivals ++ last ∷ []) w
            ≡ some (ok tt, w'))
          × Filled service encode last.total (lists w')
    unfolding handle_blocks after_block then_pages
    handle_blocks_fills {T} [] last w fits fits_last =
        let (w', done, filled) = handle_block_fills last w fits_last in
        (
          w',
          ap (after_block (handle_blocks fl env service {T = T} (rounds service) [])) done,
          filled,
        )
    handle_blocks_fills (a ∷ arrivals) last w (fits, rest) fits_last =
        let (v, done, filled) = handle_block_fills a w fits in
        let (w', ends, filled') = handle_blocks_fills arrivals last v rest fits_last in
        (
          w',
          ap (after_block (handle_blocks fl env service (rounds service) (arrivals ++ last ∷ [])))
                done
              ∙ ends,
          filled',
        )
