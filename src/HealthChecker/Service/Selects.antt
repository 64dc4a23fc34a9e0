-- ===== src/HealthChecker/Service/Selects.antt =====
-- Which results of Hive are sent on as unhealthy, described without the service.
use multichain_liquidator_bo.Base.{◌≡◌, refl, true, false, Bool, List, [], ◌∷◌, ◌++◌, ◌⊎◌, inl, inr}
use multichain_liquidator_bo.Base.Text.{Text}
use multichain_liquidator_bo.Base.Action.{Error}
use multichain_liquidator_bo.HealthChecker.Hive.{UserResult}
use multichain_liquidator_bo.HealthChecker.Service.{
  Codec, encoded_result, unhealthy_result, produce_unhealthy_positions,
}

module _ (codec : Codec) where
  -- Whether the health factor of a result is a number below 1, or an error where it is no number.
  abbrev pub below_one : UserResult → Error ⊎ Bool
  below_one r = codec.parse_below_one r.contract_query.liquidation_threshold_hf

  -- The unhealthy results are encoded to the texts, in their order. The others are healthy, cannot be
  -- read or cannot be encoded.
  pub data Selects : List UserResult → List Text → Type 0 where
    no_results : Selects [] []
    unhealthy :
        (r : UserResult) (text : Text) (rs : List UserResult) (texts : List Text)
        → below_one r ≡ inr true
        → codec.marshal_result r ≡ inr text
        → Selects rs texts
        → Selects (r ∷ rs) (text ∷ texts)
    healthy :
        (r : UserResult) (rs : List UserResult) (texts : List Text)
        → below_one r ≡ inr false
        → Selects rs texts
        → Selects (r ∷ rs) texts
    unreadable :
        (r : UserResult) (e : Error) (rs : List UserResult) (texts : List Text)
        → below_one r ≡ inl e
        → Selects rs texts
        → Selects (r ∷ rs) texts
    not_encoded :
        (r : UserResult) (e : Error) (rs : List UserResult) (texts : List Text)
        → codec.marshal_result r ≡ inl e
        → Selects rs texts
        → Selects (r ∷ rs) texts

  encoded-Selects :
      (r : UserResult) (rs : List UserResult) (texts : List Text) (encoded : Error ⊎ Text)
      → below_one r ≡ inr true
      → codec.marshal_result r ≡ encoded
      → Selects rs texts
      → Selects (r ∷ rs) (encoded_result encoded ++ texts)
  unfolding encoded_result
  encoded-Selects r rs texts (inl e) low h rest = not_encoded r e rs texts h rest
  encoded-Selects r rs texts (inr text) low h rest = unhealthy r text rs texts low h rest

  result-Selects :
      (r : UserResult) (rs : List UserResult) (texts : List Text) (read : Error ⊎ Bool)
      → below_one r ≡ read
      → Selects rs texts
      → Selects (r ∷ rs) (unhealthy_result read (codec.marshal_result r) ++ texts)
  unfolding unhealthy_result
  result-Selects r rs texts (inl e) h rest = unreadable r e rs texts h rest
  result-Selects r rs texts (inr true) h rest =
      encoded-Selects r rs texts (codec.marshal_result r) h refl rest
  result-Selects r rs texts (inr false) h rest = healthy r rs texts h rest

  pub produce_unhealthy_positions-Selects :
      (rs : List UserResult) → Selects rs (produce_unhealthy_positions codec rs)
  unfolding produce_unhealthy_positions
  produce_unhealthy_positions-Selects [] = no_results
  produce_unhealthy_positions-Selects (r ∷ rs) =
      result-Selects r rs (produce_unhealthy_positions codec rs) (below_one r) refl
        (produce_unhealthy_positions-Selects rs)
