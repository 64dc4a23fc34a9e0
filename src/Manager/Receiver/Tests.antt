-- ===== src/Manager/Receiver/Tests.antt =====
-- Messages of a websocket.
use multichain_liquidator_bo.Base.{◌≡◌, refl, true, [], ◌∷◌, ◌++◌, map, ◌==◌, ℕ}
use multichain_liquidator_bo.Base.Text.{Text, codes}
use multichain_liquidator_bo.Base.Action.{foreign, message, Result, ok, err}
use multichain_liquidator_bo.Manager.Receiver.{BlockResult, Websocket, fatal, receive}
use multichain_liquidator_bo.Manager.Receiver.Delivers.{
  keep_if, read_well, is_block, receive_delivers,
}

-- A message is the height of a block, or empty in the answer to the subscription; three letters are
-- malformed.
abbrev block_of : Text → BlockResult ℕ
block_of h = record {
  query = [];
  data_type = [];
  version_block = [];
  version_app = [];
  chain_id = [];
  height = h;
  time = 0;
}

abbrev decode : Text → Result (BlockResult ℕ)
decode (a ∷ b ∷ c ∷ m) = err (foreign "invalid character")
decode m = ok (block_of m)

abbrev client : Websocket (Unit {0}) (Unit {0}) ℕ
client = record {
  dial = λ endpoint w. (ok tt, w);
  write_text = λ c m w. (ok tt, w);
  marshal_method = λ r. ok r.query;
  unmarshal_block = decode;
  is_zero_time = λ t. t == 0;
}

receive_delivers_example :
    (receive client (
        map (read_well client) ([] ∷ codes "41" ∷ [])
        ++ (true, err (foreign "invalid character")) ∷ [])
      ≡ (
        keep_if (is_block client) (block_of [] ∷ block_of (codes "41") ∷ []),
        fatal (message "Unable to read new block from websocket"),
      ))
    × (receive client
          (map (read_well client) ([] ∷ codes "41" ∷ []) ++ (true, ok (codes "{}}")) ∷ [])
        ≡ (
          keep_if (is_block client) (block_of [] ∷ block_of (codes "41") ∷ []),
          fatal (message "Unable to parse new block from websocket"),
        ))
receive_delivers_example =
    receive_delivers client ([] ∷ codes "41" ∷ []) (block_of [] ∷ block_of (codes "41") ∷ [])
      (foreign "invalid character") (codes "{}}") [] (refl, (refl, tt)) refl
