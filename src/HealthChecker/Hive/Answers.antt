-- ===== src/HealthChecker/Hive/Answers.antt =====
-- What a batch is answered, where Hive answers its queries.
use mathlib.Core.List.{Perm}
use multichain_liquidator_bo.Base.{
  ◌≡◌, refl, sym, ap, subst, List, [], ◌∷◌, ◌++◌, map, append_assoc, inr, concat,
}
use multichain_liquidator_bo.Base.Perms.{joined, Perm-joined}
use multichain_liquidator_bo.Base.Text.{Text}
use multichain_liquidator_bo.Runtime.Types.{HealthCheckWorkItem}
use multichain_liquidator_bo.HealthChecker.Hive.{
  HiveApi, ContractQuery, UserResult, BatchQuery, Event, position_of, user_result, join_event,
  join_events, batch_query, decoded, answered, posted, fetch_batch,
}
use multichain_liquidator_bo.HealthChecker.Hive.Joins.{Lacks, position_of_last}

-- The entry of Hive's answer for one query: its alias, the user's address, and what the contract says
-- of that user.
abbrev pub entry_of : (Text → Text → ContractQuery) → BatchQuery → Text × ContractQuery
entry_of query_of q = (q.user_address, query_of q.contract_address q.user_address)

-- The documented behaviour of a GraphQL batch, when Hive is up: the queries can be encoded, the call
-- gives status 200 and a body that can be decoded, and the entries of its elements are one for each
-- query, in whichever order.
pub record HiveLaws {W : Type 0} (api : HiveApi W) (hive_endpoint : Text)
    (query_of : Text → Text → ContractQuery) : Type 0 where
  pub answers :
      (queries : List BatchQuery) (w : W)
      → (body : Text) × (text : Text) × (events : List Event) × (api.marshal_queries queries
          ≡ inr body)
        × ((api.post hive_endpoint body w).0 ≡ inr (200, text))
        × (api.decode_events text ≡ inr events)
        × Perm (map (entry_of query_of) queries) (concat events)

-- Pairwise different addresses.
abbrev pub Apart : List HealthCheckWorkItem → Type 0
Apart [] = Unit
Apart (p ∷ positions) = Lacks p.address positions × Apart positions

-- What Hive says of the user of a position, with the debts and the collateral of the position.
abbrev pub answer_for : (Text → ContractQuery) → HealthCheckWorkItem → UserResult
answer_for query_of p = record {
  address = p.address;
  contract_query = query_of p.address;
  debts = p.debts;
  collateral = p.collateral;
}

module _ (positions : List HealthCheckWorkItem) where
  joined_entry : Text × ContractQuery → UserResult
  joined_entry (address, query) = user_result address query (position_of address positions)

  join_event-map : (event : Event) → join_event positions event ≡ map joined_entry event
  unfolding join_event joined_entry
  join_event-map [] = refl
  join_event-map ((address, query) ∷ event) =
      ap (user_result address query (position_of address positions) ∷◌) (join_event-map event)

  joined_entry-append :
      (e f : Event) → map joined_entry (e ++ f) ≡ map joined_entry e ++ map joined_entry f
  joined_entry-append [] f = refl
  joined_entry-append (x ∷ e) f = ap (joined_entry x ∷◌) (joined_entry-append e f)

  join_events-map :
      (events : List Event) → join_events positions events ≡ map joined_entry (concat events)
  unfolding join_events
  join_events-map [] = refl
  join_events-map (event ∷ events) =
      rw (join_event-map event, join_events-map events)
        (sym (joined_entry-append event (concat events)))

  joined_entry-joined :
      (event : Event) → map joined_entry event ≡ joined (λ x. joined_entry x ∷ []) event
  joined_entry-joined [] = refl
  joined_entry-joined (x ∷ event) = ap (joined_entry x ∷◌) (joined_entry-joined event)

  joined_entry-Perm : {e f : Event} → Perm e f → Perm (map joined_entry e) (map joined_entry f)
  joined_entry-Perm = Perm-joined (λ x. joined_entry x ∷ []) (map joined_entry) joined_entry-joined

module _ (contract : Text) (query_of : Text → Text → ContractQuery) where
  -- With pairwise different addresses every position is joined with its own debts and collateral.
  entries-answers :
      (before after : List HealthCheckWorkItem)
      → Apart after
      → map
          (joined_entry (before ++ after))
          (map (entry_of query_of) (map (batch_query contract) after))
        ≡ map (answer_for (query_of contract)) after
  unfolding joined_entry batch_query user_result
  entries-answers before [] h = refl
  entries-answers before (p ∷ after) (lacks, h) = rw (position_of_last before after p lacks) (
      ap (answer_for (query_of contract) p ∷◌) (
        subst
          (λ (ps : List HealthCheckWorkItem).
            map (joined_entry ps) (map (entry_of query_of) (map (batch_query contract) after))
            ≡ map (answer_for (query_of contract)) after)
          (append_assoc before (p ∷ []) after) (entries-answers (before ++ p ∷ []) after h)))

module _ {W : Type 0} (api : HiveApi W) (hive_endpoint : Text)
    (query_of : Text → Text → ContractQuery) (laws : HiveLaws api hive_endpoint query_of) where
  fetch_batch_joins :
      (positions : List HealthCheckWorkItem) (contract body text : Text) (events : List Event)
      (w : W)
      → api.marshal_queries (map (batch_query contract) positions) ≡ inr body
      → (api.post hive_endpoint body w).0 ≡ inr (200, text)
      → api.decode_events text ≡ inr events
      → (fetch_batch api hive_endpoint positions contract w).0 ≡ inr (join_events positions events)
  unfolding fetch_batch posted answered decoded
  fetch_batch_joins positions contract body text events w m p d = rw m (rw p (rw d refl))

  -- Positions with pairwise different addresses are answered by one result each.
  pub fetch_batch_answers :
      (positions : List HealthCheckWorkItem) (contract : Text) (w : W)
      → Apart positions
      → (rs : List UserResult) × ((fetch_batch api hive_endpoint positions contract w).0 ≡ inr rs)
        × Perm (map (answer_for (query_of contract)) positions) rs
  fetch_batch_answers positions contract w apart =
      let (body, text, events, m, p, d, all) =
        laws.answers (map (batch_query contract) positions) w in
      (
        join_events positions events,
        fetch_batch_joins positions contract body text events w m p d,
        subst (λ (rs : List UserResult). Perm rs (join_events positions events))
            (entries-answers contract query_of [] positions apart)
            (subst
              (λ (rs : List UserResult).
                Perm
                  (map (joined_entry positions)
                    (map (entry_of query_of) (map (batch_query contract) positions)))
                  rs)
              (sym (join_events-map positions events)) (joined_entry-Perm positions all)),
      )
