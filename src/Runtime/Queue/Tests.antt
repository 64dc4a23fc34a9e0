-- ===== src/Runtime/Queue/Tests.antt =====
-- The queue over a store that is held in memory, and slices cut into chunks.
use multichain_liquidator_bo.Base.{ℕ, ◌≡◌, refl, some, List, [], ◌∷◌, arith}
use multichain_liquidator_bo.Runtime.Interfaces.{QueuerLaws}
use multichain_liquidator_bo.Runtime.Helpers.{chunk_slice, IsChunked, chunk_slice-IsChunked}
use multichain_liquidator_bo.Runtime.Sample.{store, store-RedisLaws}
use multichain_liquidator_bo.Runtime.Queue.{redis_queuer}
use multichain_liquidator_bo.Runtime.Queue.Fails.{FailsOnly}
use multichain_liquidator_bo.Runtime.Queue.Refines.{redis_queuer-QueuerLaws}

redis_queuer-QueuerLaws_example :
    QueuerLaws (redis_queuer store 5) (λ l. l) × FailsOnly store 5 (redis_queuer store 5)
redis_queuer-QueuerLaws_example = redis_queuer-QueuerLaws store (λ l. l) store-RedisLaws 5

abbrev five : List ℕ
five = 1 ∷ 2 ∷ 3 ∷ 4 ∷ 5 ∷ []

chunk_slice-IsChunked_example :
    (chunks : List (List ℕ)) × (chunk_slice five 2 ≡ some chunks) × IsChunked 2 five chunks
chunk_slice-IsChunked_example = chunk_slice-IsChunked five 2 (omega arith)

chunk_slice_of_five : chunk_slice five 2 ≡ some ((1 ∷ 2 ∷ []) ∷ (3 ∷ 4 ∷ []) ∷ (5 ∷ []) ∷ [])
unfolding chunk_slice
chunk_slice_of_five = refl
