-- ===== src/HealthChecker/Service/LastItem.antt =====
-- What an item that cannot be read does to the batch that it stands in.
use multichain_liquidator_bo.Base.{
  ◌≡◌, refl, ap, ◌∙◌, Bool, Option, none, List, [], ◌∷◌, ◌++◌, ◌⊎◌, inl, inr,
}
use multichain_liquidator_bo.Base.Text.{Text}
use multichain_liquidator_bo.Base.Action.{Error, Result, ok, err, Action, ◌>>=◌}
use multichain_liquidator_bo.Runtime.Types.{HealthCheckWorkItem}
use multichain_liquidator_bo.HealthChecker.Hive.{UserResult}
use multichain_liquidator_bo.HealthChecker.Jobs.{Job}
use multichain_liquidator_bo.HealthChecker.Service.{
  HealthChecker, Codec, error_of, add_position, decode_items, check_positions, check_decoded,
  check_items, check_once,
}

abbrev readable_item : Error ⊎ HealthCheckWorkItem → List HealthCheckWorkItem
readable_item (inl e) = []
readable_item (inr p) = p ∷ []

-- The positions of the items that can be read.
abbrev pub readable : (Text → Error ⊎ HealthCheckWorkItem) → List Text → List HealthCheckWorkItem
readable unmarshal [] = []
readable unmarshal (x ∷ xs) = readable_item (unmarshal x) ++ readable unmarshal xs

add_position-readable :
    (r : Error ⊎ HealthCheckWorkItem) (ps : List HealthCheckWorkItem) (last : Option Error)
    → add_position r (ps, last) ≡ (readable_item r ++ ps, last)
unfolding add_position
add_position-readable (inl e) ps last = refl
add_position-readable (inr p) ps last = refl

decode_items-snoc :
    (unmarshal : Text → Error ⊎ HealthCheckWorkItem) (xs : List Text) (x : Text)
    (last : Option Error)
    → decode_items unmarshal (xs ++ x ∷ []) last
      ≡ (readable unmarshal (xs ++ x ∷ []), error_of (unmarshal x))
unfolding decode_items
decode_items-snoc unmarshal [] x last =
    add_position-readable (unmarshal x) [] (error_of (unmarshal x))
decode_items-snoc unmarshal (y ∷ xs) x last =
    rw (decode_items-snoc unmarshal xs x (error_of (unmarshal y))) (
      add_position-readable (unmarshal y) (readable unmarshal (xs ++ x ∷ []))
        (error_of (unmarshal x)))

module _ {W F : Type 0} (codec : Codec)
    (pool : List (Job HealthCheckWorkItem) → Action W (List UserResult × Bool))
    (service : HealthChecker W F) where
  check_items-snoc :
      (xs : List Text) (x : Text)
      → check_items codec pool service (xs ++ x ∷ [])
        ≡ check_decoded codec pool service (decode_items codec.unmarshal_item (xs ++ x ∷ []) none)
  unfolding check_items
  check_items-snoc [] x = refl
  check_items-snoc (y ∷ xs) x = refl

  check_decoded_last :
      (w : W) (ps : List HealthCheckWorkItem) (r : Error ⊎ HealthCheckWorkItem)
      → check_decoded codec pool service (ps, error_of r) w
        ≡ elim r [ inl e ↦ (err e, w) | inr p ↦ check_positions codec pool service ps w ]
  unfolding check_decoded error_of
  check_decoded_last w ps (inl e) = refl
  check_decoded_last w ps (inr p) = refl

  once_fetched :
      (w w' : W) (items : List Text)
      → service.queue.fetch_many service.health_check_queue_name service.batch_size w
        ≡ (ok items, w')
      → check_once codec pool service w ≡ check_items codec pool service items w'
  unfolding check_once
  once_fetched w w' items h =
      ap
        (λ (r : Result (List Text) × W).
          ((λ (v : W). r) >>= λ (xs : List Text). check_items codec pool service xs) w)
        h

  -- Of the items fetched in one round, the last one alone decides. If it cannot be read, the round
  -- ends with that error, and no position is checked, those of the other items neither. If it can
  -- be read, every other item that cannot is passed over and the positions of the rest are checked.
  pub last_item_decides :
      (w w' : W) (xs : List Text) (x : Text)
      → service.queue.fetch_many service.health_check_queue_name service.batch_size w
        ≡ (ok (xs ++ x ∷ []), w')
      → check_once codec pool service w ≡ elim (codec.unmarshal_item x) [
        | inl e ↦ (err e, w')
        | inr p ↦
            check_positions codec pool service (readable codec.unmarshal_item (xs ++ x ∷ [])) w'
      ]
  last_item_decides w w' xs x h =
      let ps = readable codec.unmarshal_item (xs ++ x ∷ []) in
      once_fetched w w' (xs ++ x ∷ []) h
      ∙ ap (λ (m : Action W (Unit {0})). m w') (check_items-snoc xs x)
      ∙ ap (λ (d : List HealthCheckWorkItem × Option Error). check_decoded codec pool service d w')
          (decode_items-snoc codec.unmarshal_item xs x none)
      ∙ check_decoded_last w' ps (codec.unmarshal_item x)
