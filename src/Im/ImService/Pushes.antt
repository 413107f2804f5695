-- ===== src/Im/ImService/Pushes.antt =====
-- src/im/ImService.cpp: what goes to the batch sender: answers, pushes to the connections of a group
-- and to those of an account.
use project_chat.Common.{
  ℕ, String, Bool, true, false, not, Option, none, some, List, [], ◌∷◌, length, eqb, if◌then◌else◌,
  string_key, nat_key,
}
use project_chat.Id.SnowflakeIdGenerator.{SnowflakeIdGenerator}
use project_chat.Net.Batch.{BatchSendResult, no_results}
use project_chat.Im.Json.{Json}
use project_chat.Im.ImMessage.{Request, Response}
use project_chat.Im.SessionManager.{conn_keys_by_account_id}
use project_chat.Im.ImService.{ImService, Stamp, next_message_id, collect_group_targets}

module _ {J : Type 0} (json : Json J) where
  -- `msgId`, `serverTsMs` and `clientReqId`; `none` is an exception of the generator.
  unfoldable pub decorate :
      SnowflakeIdGenerator
      → Stamp
      → Response J
      → Option ℕ
      → Option ℕ
      → Option (Response J) × SnowflakeIdGenerator
  unfolding next_message_id
  decorate ids stamp resp msg_id client_req_id =
      let finish = λ (d : J).
        let timed : J =
          if json.contains d "serverTsMs"
          then d
          else json.put d "serverTsMs" (json.number stamp.now_ms) in
        record resp {
          answer = elim client_req_id [
            | none ↦ timed
            | some id ↦ json.put timed "clientReqId" (json.number id)
          ];
        } in
      let (drawn, ids') = next_message_id ids stamp.readings in
      elim msg_id [
        | some id ↦ (some (finish (json.put resp.answer "msgId" (json.number id))), ids)
        | none ↦
            if json.contains resp.answer "msgId"
            then (some (finish resp.answer), ids)
            else elim drawn [
              | none ↦ (none, ids')
              | some id ↦ (some (finish (json.put resp.answer "msgId" (json.number id))), ids')
            ]
      ]

  -- `encodeResponse`, then `sendEncodedPayload`.
  unfoldable pub send_encoded :
      ImService J → List ℕ → Response J → BatchSendResult → BatchSendResult × ImService J
  send_encoded s targets resp answered =
      if eqb (length targets) 0
      then (no_results, s)
      else if not s.wiring.batch_sender
      then (record no_results { failures = length targets }, s)
      else (answered, record s { sent = (targets, resp) ∷ s.sent })

  -- `false` is an exception.
  unfoldable pub send_response_with_log :
      ImService J → ℕ → Request J → Response J → Stamp → BatchSendResult → Bool × ImService J
  unfolding decorate send_encoded
  send_response_with_log s key req resp stamp answered =
      let (decorated, ids) = decorate s.ids stamp resp none (some req.req_id) in
      let s' : ImService J = record s { ids = ids } in
      elim decorated [
        | none ↦ (false, s')
        | some r ↦ (true, (send_encoded s' (key ∷ []) r answered).1)
      ]

  -- `msgId` is one the response has already, if it has one.
  unfoldable pub broadcast_to_group :
      ImService J
      → String
      → ℕ
      → Response J
      → Stamp
      → BatchSendResult
      → Option BatchSendResult × ImService J
  unfolding decorate send_encoded collect_group_targets
  broadcast_to_group s group_id sender_key push stamp answered =
      let numbered : Response J = record push { req_id = 0 } in
      let msg_id : Option ℕ =
        if json.contains push.answer "msgId"
        then some (json.tested_uint64 (json.at push.answer "msgId"))
        else none in
      let (decorated, ids) = decorate s.ids stamp numbered msg_id none in
      let s' : ImService J = record s { ids = ids } in
      elim decorated [
        | none ↦ (none, s')
        | some r ↦
            let (result, after) =
              send_encoded s' (collect_group_targets s.sessions s.groups group_id sender_key) r
                answered in
            (some result, after)
      ]

  -- `AccountPushResult` has four of the counts of the batch.
  unfoldable pub push_to_account :
      ImService J
      → String
      → Response J
      → Stamp
      → BatchSendResult
      → Option BatchSendResult × ImService J
  unfolding decorate send_encoded
  push_to_account s target_account_id push stamp answered =
      let keys = conn_keys_by_account_id s.sessions target_account_id in
      let (decorated, ids) = decorate s.ids stamp push none none in
      let s' : ImService J = record s { ids = ids } in
      if eqb (length keys) 0 then (some no_results, s) else elim decorated [
        | none ↦ (none, s')
        | some r ↦ (let (result, after) = send_encoded s' keys r answered in (some result, after))
      ]
