-- ===== src/LongConn.antt =====
-- The long connection's requests, messages and order marks: internal/interaction/long_conn_mgr.go,
-- internal/interaction/ws_resp_asyn.go and pkg/ccontext/context.go.
pub mod Lanes
pub mod Replies
pub mod Status
use openim_sdk_core.Prelude.{ℕ, Bool, Option, String}

-- `SendOrderLaneText`, `SendOrderLaneMedia`, and every other value of the Go type.
pub data SendOrderLane : Type 0 where
  text : SendOrderLane
  media : SendOrderLane
  other : ℕ → SendOrderLane

-- A sequence number below 1 is treated as 0 is: the lanes start at 1.
pub record SendOrderInfo : Type 0 where
  pub lane : SendOrderLane
  pub ordered : Bool
  pub seq : ℕ
  pub deadline : ℕ

-- `payload` is the request's content before it is marshalled, of which the lanes read nothing.
pub record GeneralWsReq : Type 0 where
  pub req_identifier : ℕ
  pub token : String
  pub send_id : String
  pub operation_id : String
  pub msg_incr : String
  pub payload : String

-- `payload` is the content that `Data` encodes.
pub record GeneralWsResp : Type 0 where
  pub req_identifier : ℕ
  pub err_code : ℕ
  pub err_msg : String
  pub msg_incr : String
  pub operation_id : String
  pub payload : String

-- `resp` is the identity of the channel.
pub record Message : Type 0 where
  pub message : GeneralWsReq
  pub resp : ℕ
  pub order : Option SendOrderInfo
