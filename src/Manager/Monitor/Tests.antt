-- ===== src/Manager/Monitor/Tests.antt =====
-- A total fetched from a contract, on the sample.
use multichain_liquidator_bo.Base.{◌≡◌, refl, some, [], ◌∷◌}
use multichain_liquidator_bo.Base.Int.{pos}
use multichain_liquidator_bo.Base.Action.{ok}
use multichain_liquidator_bo.Manager.Monitor.{StateQuery, total_name, fetch_total}
use multichain_liquidator_bo.Manager.Monitor.Totals.{collect_each, fetched_total_stays}
use multichain_liquidator_bo.Manager.Sample.{
  World, floats, numbers_of, cache_laws, manager, counts_only, used,
}

abbrev chain : StateQuery World (Unit {0})
chain = record {
  new_rpc_client = λ endpoint w. (ok tt, w);
  marshal_count_request = λ contract. ok contract;
  abci_query = λ client path request w. (ok request, w);
  unmarshal_total = λ response. ok 25;
}

abbrev stored : World
stored = (fetch_total floats chain manager used).1

fetched : fetch_total floats chain manager used ≡ (ok 25, stored)
unfolding fetch_total
fetched = refl

fetched_total_stays_example :
    numbers_of
      (collect_each floats manager numbers_of cache_laws counts_only (pos 41 ∷ pos 42 ∷ []) stored)
      total_name
    ≡ some 25
fetched_total_stays_example =
    fetched_total_stays floats manager numbers_of cache_laws counts_only chain (λ k x w. refl) 25
      (pos 41 ∷ pos 42 ∷ []) used stored fetched
