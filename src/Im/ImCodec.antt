-- ===== src/Im/ImCodec.antt =====
-- src/im/ImCodec.cpp: from the text of a frame to a request, and from a response to its text. The
-- parsers of the fields of a request are in Im/ImCodec/Parsers.
pub mod Parsers
use Prim.Native.String.{◌++◌ as ◌<>◌}
use project_chat.Common.{
  ℕ, String, true, false, not, ◌&&◌, ◌||◌, Option, none, some, [], ◌∷◌, ◌++◌, eqb, if◌then◌else◌,
  ◌==◌, string_key, ◌⊎◌,
}
use project_chat.Im.Json.{Json}
use project_chat.Im.MsgType.{MsgType, from_int, to_int}
use project_chat.Im.MsgType
use project_chat.Im.ErrorCode
use project_chat.Im.ErrorCode.{
  ErrorCode, missing_field, unsupported_ver, unknown_type, bad_json, to_uint16,
}
use project_chat.Im.ImMessage.{Request, Response}

-- What `tryParse` returns; `threw` is an exception that it does not catch.
pub data Parsed (J : Type 0) : Type 0 where
  request : Request J → Parsed J
  response : Response J → Parsed J
  threw : Parsed J

pub data DispatchMode : Type 0 where
  immediate_mode deferred_mode : DispatchMode

pub record DispatchResult (J : Type 0) : Type 0 where
  pub mode : DispatchMode
  pub response : Option (Response J)

abbrev pub immediate : {J : Type 0} → Response J → DispatchResult J
immediate r = record { mode = immediate_mode; response = some r }

abbrev pub deferred : {J : Type 0} → DispatchResult J
deferred = record { mode = deferred_mode; response = none }

-- `shouldRespond`, with the response.
abbrev pub should_respond : {J : Type 0} → DispatchResult J → Option (Response J)
should_respond d = elim d.mode [ immediate_mode ↦ d.response | deferred_mode ↦ none ]

module _ {J : Type 0} (json : Json J) where
  abbrev pub make_err_with : Request J → ErrorCode → String → J → Response J
  make_err_with req code msg answer = record {
    ver = req.ver;
    req_id = req.req_id;
    type = MsgType.err;
    ok = false;
    code = code;
    msg = msg;
    answer = answer;
  }

  abbrev pub make_err : Request J → ErrorCode → String → Response J
  make_err req code msg = make_err_with req code msg json.null

  abbrev pub make_ok_with : Request J → MsgType → J → String → Response J
  make_ok_with req type answer msg = record {
    ver = req.ver;
    req_id = req.req_id;
    type = type;
    ok = true;
    code = ErrorCode.ok;
    msg = msg;
    answer = answer;
  }

  abbrev pub make_ok : Request J → MsgType → J → Response J
  make_ok req type answer = make_ok_with req type answer "Ok"

  abbrev parse_failure : ℕ → ErrorCode → String → Parsed J
  parse_failure ver code msg = response (record {
    ver = ver;
    req_id = 0;
    type = MsgType.err;
    ok = false;
    code = code;
    msg = msg;
    answer = json.null;
  })

  -- An optional field: `if(j.contains(key)) field=j[key].get<T>()`; `none` is the exception.
  abbrev optional : {A : Type 0} → J → String → A → (J → Option A) → Option A
  optional j key missing get = if json.contains j key then get (json.at j key) else some missing

  -- From the construction of the request on.
  pub parse_optional : J → ℕ → MsgType → ℕ → Parsed J
  parse_optional j ver type req_id = elim (optional j "seq" 0 json.get_uint64) [
    | none ↦ threw
    | some seq ↦ elim (optional j "from" "" json.get_string) [
      | none ↦ threw
      | some from ↦ elim (optional j "to" "" json.get_string) [
        | none ↦ threw
        | some to ↦ request (record {
          ver = ver;
          type = type;
          req_id = req_id;
          seq = seq;
          from = from;
          to = to;
          body = j;
        })
      ]
    ]
  ]

  -- From the reading of the type on.
  pub parse_type : J → ℕ → Parsed J
  unfolding parse_optional
  parse_type j ver = elim (json.get_uint32 (json.at j "type")) [
    | none ↦ threw
    | some n ↦ elim (from_int n) [
      | none ↦ parse_failure ver unknown_type "Unknown message type"
      | some type ↦ elim (json.get_uint64 (json.at j "req_id")) [
        | none ↦ threw
        | some req_id ↦ parse_optional j ver type req_id
      ]
    ]
  ]

  pub try_parse : String → Parsed J
  unfolding parse_type
  try_parse payload = elim (json.parse payload) [
    | none ↦ parse_failure 1 bad_json "Invalid JSON format"
    | some j ↦
        if not (json.contains j "ver")
          || (not (json.contains j "type") || not (json.contains j "req_id"))
        then parse_failure 1 missing_field "Missing required field"
        else elim (json.get_uint32 (json.at j "ver")) [
          | none ↦ threw
          | some ver ↦
              if eqb ver 1
              then parse_type j ver
              else parse_failure ver unsupported_ver "Unsupported protocol version"
        ]
  ]

  -- The text of a response.
  pub encode_response : Response J → String
  encode_response r = json.dump (
      json.object (
        ("ver", json.number r.ver)
        ∷ ("req_id", json.number r.req_id)
        ∷ ("type", json.number (to_int r.type))
        ∷ ("ok", json.boolean r.ok)
        ∷ ("code", json.number (to_uint16 r.code))
        ∷ ("msg", json.text r.msg)
        ∷ ("data", r.answer)
        ∷ []))
