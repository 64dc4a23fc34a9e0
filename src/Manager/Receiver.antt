-- ===== src/Manager/Receiver.antt =====
-- manager/src/manager/websocket.go and its messages in types.go: receiving new blocks.
pub mod Delivers
mod Tests
use multichain_liquidator_bo.Base.{ℕ, Bool, true, false, ◌&&◌, List, [], ◌∷◌, if◌then◌else◌}
use multichain_liquidator_bo.Base.Int.{ℤ, pos}
use multichain_liquidator_bo.Base.Text.{Text, codes}
use multichain_liquidator_bo.Base.Action.{
  Error, message, Result, ok, err, panic, Action, ◌>>=◌, ◌>>◌, return,
}
use multichain_liquidator_bo.Manager.Block.{blank}

-- `RPCMethodRequest`, with the query of its `Params`.
pub record RpcMethodRequest : Type 0 where
  pub jsonrpc : Text
  pub rpc_method : Text
  pub id : ℤ
  pub query : Text

-- The field `Result` of `RPCNewBlockResponse`, with times of the type `T`.
pub record BlockResult (T : Type 0) : Type 0 where
  pub query : Text
  pub data_type : Text
  pub version_block : Text
  pub version_app : Text
  pub chain_id : Text
  pub height : Text
  pub time : T

-- Foreign code: the websocket client (gorilla/websocket) with its connections `C`, and
-- encoding/json. `is_zero_time` compares a time to the zero one.
pub record Websocket (W C T : Type 0) : Type 0 where
  pub dial : Text → Action W C
  pub write_text : C → Text → Action W (Unit {0})
  pub marshal_method : RpcMethodRequest → Result Text
  pub unmarshal_block : Text → Result (BlockResult T)
  pub is_zero_time : T → Bool

-- How far the goroutine has come: it waits for a message, has seen the flag cleared, or has ended
-- the process by `Fatal`; it may panic.
pub data Receiving : Type 0 where
  waiting disconnected crashed : Receiving
  fatal : Error → Receiving

abbrev pub subscribe_request : RpcMethodRequest
subscribe_request = record {
  jsonrpc = codes "2.0";
  rpc_method = codes "subscribe";
  id = pos 0;
  query = codes "tm.event='NewBlock'";
}

module _ {W C T : Type 0} (ws : Websocket W C T) where
  -- `newBlock.Result == RPCNewBlockResponse{}.Result`.
  pub is_empty_result : BlockResult T → Bool
  is_empty_result b =
      blank b.query
      && (blank b.data_type
          && (blank b.version_block
              && (blank b.version_app
                  && (blank b.chain_id && (blank b.height && ws.is_zero_time b.time)))))

  -- What comes before the goroutine is started.
  unfoldable pub subscribe : Text → Action W C
  subscribe endpoint = do
    client ← ws.dial endpoint
    request ← λ w. (ws.marshal_method subscribe_request, w)
    ws.write_text client request
    return client

  deliver :
      Result (BlockResult T) → List (BlockResult T) × Receiving → List (BlockResult T) × Receiving
  unfolding is_empty_result
  deliver (ok b) (blocks, s) = if is_empty_result b then (blocks, s) else (b ∷ blocks, s)
  deliver (err e) _ = ([], fatal (message "Unable to parse new block from websocket"))
  deliver panic _ = ([], crashed)

  -- The goroutine, with what the flag reads and what `ReadMessage` gives: the blocks that it sends.
  pub receive : List (Bool × Result Text) → List (BlockResult T) × Receiving
  unfolding deliver
  receive [] = ([], waiting)
  receive ((false, r) ∷ inputs) = ([], disconnected)
  receive ((true, ok m) ∷ inputs) = deliver (ws.unmarshal_block m) (receive inputs)
  receive ((true, err e) ∷ inputs) = ([], fatal (message "Unable to read new block from websocket"))
  receive ((true, panic) ∷ inputs) = ([], crashed)
