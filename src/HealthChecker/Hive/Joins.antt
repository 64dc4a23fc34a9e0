-- ===== src/HealthChecker/Hive/Joins.antt =====
-- The answer of Hive is joined with the right positions.
use multichain_liquidator_bo.Base.{◌≡◌, refl, ap, ◌∙◌, false, none, some, List, [], ◌∷◌, ◌++◌, All}
use multichain_liquidator_bo.Base.Text.{Text, text_eq, text_eq_refl}
use multichain_liquidator_bo.Runtime.Types.{HealthCheckWorkItem}
use multichain_liquidator_bo.HealthChecker.Hive.{
  ContractQuery, UserResult, Event, position_of, user_result, join_event,
}

-- No position of the list has the address.
abbrev pub Lacks : Text → List HealthCheckWorkItem → Type 0
Lacks address positions = All (λ p. text_eq address p.address ≡ false) positions

position_of-Lacks :
    (address : Text) (positions : List HealthCheckWorkItem)
    → Lacks address positions
    → position_of address positions ≡ none
unfolding position_of
position_of-Lacks address [] h = refl
position_of-Lacks address (p ∷ positions) h =
    rw (position_of-Lacks address positions h.1, position_of) (rw h.0 refl)

pub position_of_last :
    (before after : List HealthCheckWorkItem) (p : HealthCheckWorkItem)
    → Lacks p.address after
    → position_of p.address (before ++ p ∷ after) ≡ some p
unfolding position_of
position_of_last [] after p h =
    rw (position_of-Lacks p.address after h, position_of) (rw (text_eq_refl p.address) refl)
position_of_last (q ∷ before) after p h = rw (position_of_last before after p h, position_of) refl

join_event-append :
    (positions : List HealthCheckWorkItem) (e f : Event)
    → join_event positions (e ++ f) ≡ join_event positions e ++ join_event positions f
unfolding join_event
join_event-append positions [] f = refl
join_event-append positions ((a, q) ∷ e) f =
    ap (user_result a q (position_of a positions) ∷◌) (join_event-append positions e f)

-- Where `p` is the last position of its address, what Hive answers for that address is joined with
-- the debts and the collateral of `p`, wherever in the answer it stands, and the other answers are
-- joined as they would be without it.
pub join_event_last :
    (before after : List HealthCheckWorkItem) (p : HealthCheckWorkItem) (e f : Event)
    (q : ContractQuery)
    → Lacks p.address after
    → let positions = before ++ p ∷ after in
      join_event positions (e ++ (p.address, q) ∷ f)
      ≡ join_event positions e
        ++ record {
          address = p.address;
          contract_query = q;
          debts = p.debts;
          collateral = p.collateral;
        }
          ∷ join_event positions f
unfolding join_event
join_event_last before after p e f q h =
    let positions = before ++ p ∷ after in
    join_event-append positions e ((p.address, q) ∷ f)
    ∙ ap (λ (r : UserResult). join_event positions e ++ r ∷ join_event positions f)
        (ap (user_result p.address q) (position_of_last before after p h))
