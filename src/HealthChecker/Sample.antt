-- ===== src/HealthChecker/Sample.antt =====
-- Two positions, and a Hive that answers queries on them.
use mathlib.Core.List.{Perm}
use mathlib.Core.List.Perm
use multichain_liquidator_bo.Base.{
  ℕ, zero, suc, sym, ap, ◌∙◌, subst, concat, if◌then◌else◌, ◌≡◌, refl, inr, List, [], ◌∷◌, map,
}
use multichain_liquidator_bo.Base.Text.{Text, codes, text_eq}
use multichain_liquidator_bo.Runtime.Types.{HealthCheckWorkItem}
use multichain_liquidator_bo.Runtime.Interfaces.{Lists}
use multichain_liquidator_bo.HealthChecker.Hive.{
  ContractQuery, UserResult, BatchQuery, Event, HiveApi,
}
use multichain_liquidator_bo.HealthChecker.Hive.Answers.{HiveLaws, Apart, entry_of}

abbrev pub position : HealthCheckWorkItem
position = record {
  address = codes "osmo1abc";
  debts = record { token = codes "uosmo"; amount = codes "100" } ∷ [];
  collateral = [];
  endpoints = record { hive = []; lcd = []; rpc = [] };
}

abbrev pub low_health : ContractQuery
low_health = record {
  total_collateral_in_base_asset = codes "50";
  total_debt_in_base_asset = codes "100";
  max_ltv_hf = codes "0.4";
  liquidation_threshold_hf = codes "0.5";
}

abbrev pub low_result : UserResult
low_result = record {
  address = position.address;
  contract_query = low_health;
  debts = position.debts;
  collateral = [];
}

-- Another position, whose user is healthy.
abbrev pub healthy_position : HealthCheckWorkItem
healthy_position = record {
  address = codes "osmo1xyz";
  debts = record { token = codes "uatom"; amount = codes "7" } ∷ [];
  collateral = record { token = codes "uosmo"; amount = codes "900" } ∷ [];
  endpoints = record { hive = []; lcd = []; rpc = [] };
}

abbrev good_health : ContractQuery
good_health = record {
  total_collateral_in_base_asset = codes "900";
  total_debt_in_base_asset = codes "7";
  max_ltv_hf = codes "9.1";
  liquidation_threshold_hf = codes "9.5";
}

abbrev pub health_of : Text → Text → ContractQuery
health_of contract address = if text_eq address (codes "osmo1abc") then low_health else good_health

abbrev pub positions : List HealthCheckWorkItem
positions = position ∷ healthy_position ∷ []

pub apart : Apart positions
unfolding text_eq
apart = ((refl, tt), (tt, tt))

-- A Hive whose encoding of the queries keeps the addresses, each character raised by one and with a 0
-- at the end, and which gives one user a low health and every other a good one.
abbrev shifted : Text → Text → Text
shifted [] rest = 0 ∷ rest
shifted (c ∷ cs) rest = suc c ∷ shifted cs rest

abbrev encoded_queries : List BatchQuery → Text
encoded_queries [] = []
encoded_queries (q ∷ queries) = shifted q.user_address (encoded_queries queries)

abbrev in_front : ℕ → List Text → List Text
in_front c [] = (c ∷ []) ∷ []
in_front c (address ∷ addresses) = (c ∷ address) ∷ addresses

abbrev addresses_of : Text → List Text
addresses_of [] = []
addresses_of (zero ∷ text) = [] ∷ addresses_of text
addresses_of (suc c ∷ text) = in_front c (addresses_of text)

addresses_of-shifted :
    (address rest : Text) → addresses_of (shifted address rest) ≡ address ∷ addresses_of rest
addresses_of-shifted [] rest = refl
addresses_of-shifted (c ∷ cs) rest = ap (in_front c) (addresses_of-shifted cs rest)

abbrev events_of : List Text → List Event
events_of [] = []
events_of (address ∷ addresses) = ((address, health_of [] address) ∷ []) ∷ events_of addresses

abbrev pub hive : HiveApi Lists
hive = record {
  marshal_queries = λ queries. inr (encoded_queries queries);
  post = λ endpoint body l. (inr (200, body), l);
  decode_events = λ text. inr (events_of (addresses_of text));
}

entries_of_events :
    (queries : List BatchQuery)
    → map (entry_of health_of) queries ≡ concat (events_of (addresses_of (encoded_queries queries)))
entries_of_events [] = refl
entries_of_events (q ∷ queries) =
    ap ((q.user_address, health_of [] q.user_address) ∷◌) (entries_of_events queries)
    ∙ ap (λ (addresses : List Text). concat (events_of addresses))
        (sym (addresses_of-shifted q.user_address (encoded_queries queries)))

pub hive_laws : HiveLaws hive [] health_of
hive_laws = record {
  answers = λ queries w. (
    encoded_queries queries,
    encoded_queries queries,
    events_of (addresses_of (encoded_queries queries)),
    refl,
    refl,
    refl,
    subst (Perm (map (entry_of health_of) queries)) (entries_of_events queries)
        (Perm.refl (map (entry_of health_of) queries)),
  );
}
