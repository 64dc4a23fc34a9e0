-- ===== src/Manager/Pages/Tests.antt =====
-- Pages sent to a queue that takes everything.
use multichain_liquidator_bo.Base.{ℕ, suc, ◌+◌, ◌/◌, ◌≡◌, refl, none, some, [], ◌∷◌, arith}
use multichain_liquidator_bo.Base.Int.{pos}
use multichain_liquidator_bo.Base.Text.{Text}
use multichain_liquidator_bo.Base.Action.{Result, ok}
use multichain_liquidator_bo.Runtime.Types.{WorkItem}
use multichain_liquidator_bo.Runtime.Interfaces.{Queuer}
use multichain_liquidator_bo.Manager.Pages.{Target, send, send_pages}
use multichain_liquidator_bo.Manager.Pages.Covers.{
  offsets, holding, send_each, send_pages_covers, send_pages_diverges,
}

-- The world is the number of items that were pushed.
abbrev counting_queue : Queuer ℕ
counting_queue = record {
  connect = λ n. (ok tt, n);
  push = λ k x n. (ok tt, suc n);
  push_many = λ k xs n. (ok tt, n);
  fetch = λ k n. (ok none, n);
  fetch_many = λ k m n. (ok [], n);
  count_items = λ k n. (ok (pos n), n);
  purge = λ k n. (ok tt, 0);
  disconnect = λ n. (ok tt, n);
}

abbrev encode : WorkItem → Result Text
encode item = ok (b'w' ∷ [])

abbrev target : Target
target = record {
  rpc_endpoint = [];
  hive_endpoint = [];
  lcd_endpoint = [];
  collector_contract = [];
}

abbrev name : Text
name = b'q' ∷ []

send_pages_covers_example :
    let os = offsets 10 (25 / 10 + 1) 0 in
    (send_pages counting_queue encode name target 10 (25 / 10 + 3) 25 0 0
      ≡ some (send_each counting_queue encode name target 10 os 0))
    × (holding 10 17 os ≡ 1)
send_pages_covers_example =
    send_pages_covers counting_queue encode name target 10 25 17 0 (omega arith) (omega arith)
      (omega arith)

send_safe : (n : ℕ) → ¬ ((send counting_queue encode name target 0 0 n).0 ≡ Result.panic)
unfolding send
send_safe n e = cc

send_pages_diverges_example : send_pages counting_queue encode name target 0 100 25 0 0 ≡ none
send_pages_diverges_example =
    send_pages_diverges counting_queue encode name target 0 100 25 0 refl send_safe
