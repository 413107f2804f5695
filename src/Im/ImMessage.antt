-- ===== src/Im/ImMessage.antt =====
-- include/im/ImMessage.h: a request of a client and a response to it.
use project_chat.Common.{ℕ, String, Bool}
use project_chat.Im.MsgType.{MsgType}
use project_chat.Im.ErrorCode.{ErrorCode}

pub record Request (J : Type 0) : Type 0 where
  pub ver : ℕ
  pub type : MsgType
  pub req_id : ℕ
  pub seq : ℕ
  pub from : String
  pub to : String
  pub body : J

pub record Response (J : Type 0) : Type 0 where
  pub ver : ℕ
  pub req_id : ℕ
  pub type : MsgType
  pub ok : Bool
  pub code : ErrorCode
  pub msg : String
  pub answer : J
