-- ===== src/Process/Wire.antt =====
-- protocol/artest_process.proto, Protocol.h and Protocol.cpp of source/ARTestEngine.Process: the
-- messages between the engine and a worker process. The codec of protobuf and the JSON parser are a
-- parameter; unknown fields are outside the model.
use artest_cli.Base.{
  ℕ, ◌≡◌, ◌≢◌, ◌≤◌, ◌<◌, All, Bool, true, false, Option, none, some, List, [], ◌∷◌, ◌++◌, String,
  not, ◌&&◌, ◌||◌, ◌==◌, leb, is_empty, length, if◌then◌else◌,
}

pub record Payload : Type 0 where
  pub schema_id : String
  pub json : String

-- An enumeration of proto3 is open: any number may arrive.
pub data Operation : Type 0 where
  unspecified describe create initialize invoke shutdown destroy : Operation
  resolve_service invoke_service release_service stop : Operation
  unknown_operation : ℕ → Operation

pub data Status : Type 0 where
  ok invalid_argument not_found cancelled timed_out : Status
  extension_failure protocol_failure host_failure : Status
  unknown_status : ℕ → Status

pub record Hello : Type 0 where
  pub extension_id : String
  pub fingerprint : String
  pub nonce : List ℕ
  pub acknowledged : Bool

pub record Request : Type 0 where
  pub operation : Operation
  pub component : ℕ
  pub type_id : String
  pub operation_id : String
  pub payload : Payload
  pub remaining_ms : ℕ
  pub has_deadline : Bool

pub record Response : Type 0 where
  pub status : Status
  pub diagnostic : String
  pub payload : Payload
  pub handle : ℕ
  pub effect_indeterminate : Bool

pub record Event : Type 0 where
  pub severity : ℕ
  pub category : String
  pub message : String

pub data Body : Type 0 where
  hello_body : Hello → Body
  request_body : Request → Body
  response_body : Response → Body
  cancel_body : Bool → Body
  event_body : Event → Body
  no_body : Body

pub record Envelope : Type 0 where
  pub major : ℕ
  pub minor : ℕ
  pub generation : ℕ
  pub correlation : ℕ
  pub parent : ℕ
  pub body : Body

-- A `ProcessError` with its code and text, or another exception.
pub data Fault : Type 0 where
  process_error : String → String → Fault
  other_error : Fault

pub data Answer (A : Type 0) : Type 0 where
  answered : A → Answer A
  thrown : Fault → Answer A

-- The messages that the generated types can hold and proto3 can write: numbers of the declared
-- width, enumerators of 32 bits that are none of the named ones, and texts in UTF-8, by a test.
module _ (is_utf8 : String → Bool) where
  abbrev pub IsOperation : Operation → Type 0
  IsOperation (unknown_operation n) = (11 ≤ n) × (n < 2147483648)
  IsOperation _ = Unit

  abbrev pub IsStatus : Status → Type 0
  IsStatus (unknown_status n) = (8 ≤ n) × (n < 2147483648)
  IsStatus _ = Unit

  abbrev pub IsText : String → Type 0
  IsText s = is_utf8 s ≡ true

  abbrev pub IsPayload : Payload → Type 0
  IsPayload p = IsText p.schema_id × IsText p.json

  abbrev pub IsBody : Body → Type 0
  IsBody (hello_body h) = IsText h.extension_id × IsText h.fingerprint × All (λ b. b < 256) h.nonce
  IsBody (request_body r) =
      IsOperation r.operation
      × (r.component < 18446744073709551616)
      × IsText r.type_id
      × IsText r.operation_id
      × IsPayload r.payload
      × (r.remaining_ms < 18446744073709551616)
  IsBody (response_body r) =
      IsStatus r.status
      × IsText r.diagnostic
      × IsPayload r.payload
      × (r.handle < 18446744073709551616)
  IsBody (cancel_body a) = Unit
  IsBody (event_body e) = (e.severity < 4294967296) × IsText e.category × IsText e.message
  IsBody no_body = Unit

  abbrev pub IsMessage : Envelope → Type 0
  IsMessage m =
      (m.major < 4294967296)
      × (m.minor < 4294967296)
      × (m.generation < 18446744073709551616)
      × (m.correlation < 18446744073709551616)
      × (m.parent < 18446744073709551616)
      × IsBody m.body

-- What the code relies on of protobuf and of the JSON parser. Of a message that proto3 can write,
-- what is written is read back, `ByteSizeLong` is its size, and a number other than 0 is written.
pub record Codec : Type 1 where
  pub Frame : Type 0
  pub frame_size : Frame → ℕ
  pub byte_size : Envelope → ℕ
  pub serialize : Envelope → Frame
  pub parse : Frame → Option Envelope
  pub text_size : String → ℕ
  pub is_json : String → Bool
  pub is_utf8 : String → Bool
  pub parse-serialize : (m : Envelope) → IsMessage is_utf8 m → parse (serialize m) ≡ some m
  pub frame_size-serialize :
      (m : Envelope) → IsMessage is_utf8 m → frame_size (serialize m) ≡ byte_size m
  pub generation_written : (m : Envelope) → IsMessage is_utf8 m → m.generation ≢ 0 → 0 < byte_size m

abbrev pub protocol_major : ℕ
protocol_major = 0

abbrev pub protocol_minor : ℕ
protocol_minor = 2

abbrev pub max_frame_bytes : ℕ
max_frame_bytes = 1048576

abbrev pub is_ok : Status → Bool
is_ok ok = true
is_ok _ = false

-- `Operation_IsValid`, and not `OPERATION_UNSPECIFIED`.
abbrev pub is_operation : Operation → Bool
is_operation unspecified = false
is_operation (unknown_operation n) = false
is_operation _ = true

-- `Status_IsValid`.
abbrev pub is_status : Status → Bool
is_status (unknown_status n) = false
is_status _ = true

-- A run of `Check`s: the first that fails throws.
abbrev pub run_checks : List (Bool × String) → Answer (Unit {0})
run_checks [] = answered tt
run_checks ((valid, text) ∷ rest) =
    if valid then run_checks rest else thrown (process_error "PROCESS_PROTOCOL_INVALID" text)

module _ (c : Codec) where
  open c use {Frame, frame_size, byte_size, serialize, parse, text_size, is_json}

  abbrev pub header_checks : Envelope → List (Bool × String)
  header_checks m =
      (m.major == protocol_major && m.minor == protocol_minor, "Unsupported wire version.")
      ∷ (not (m.generation == 0) && not (m.correlation == 0), "Missing generation/correlation.")
      ∷ (leb (byte_size m) max_frame_bytes, "Message exceeds the control-plane limit.")
      ∷ []

  abbrev json_checks : Payload → List (Bool × String)
  json_checks p =
      if is_empty p.json
      then []
      else (not (is_empty p.schema_id), "JSON requires a schema ID.")
        ∷ (is_json p.json, "Malformed or non-finite JSON payload.")
        ∷ []

  abbrev pub payload_checks : Payload → List (Bool × String)
  payload_checks p =
      (leb (text_size p.schema_id) 256, "Schema ID is too long.")
      ∷ (leb (text_size p.json) max_frame_bytes, "Payload exceeds the control-plane limit.")
      ∷ json_checks p

  abbrev pub body_checks : Body → List (Bool × String)
  body_checks (hello_body h) =
      (
        not (is_empty h.extension_id) && leb (text_size h.extension_id) 256,
        "Missing/oversized extension ID.",
      )
      ∷ (
        text_size h.fingerprint == 64 && length h.nonce == 32,
        "Invalid fingerprint or bootstrap nonce.",
      )
      ∷ []
  body_checks (request_body r) =
      (is_operation r.operation, "Unknown operation.")
      ∷ (
        leb (text_size r.type_id) 256 && leb (text_size r.operation_id) 256,
        "Oversized request identity.",
      )
      ∷ payload_checks r.payload
  body_checks (response_body r) =
      (is_status r.status, "Unknown response status.")
      ∷ (
        not r.effect_indeterminate || not (is_ok r.status),
        "An indeterminate effect cannot report technical success.",
      )
      ∷ (leb (text_size r.diagnostic) 4096, "Oversized diagnostic.")
      ∷ payload_checks r.payload
  body_checks (cancel_body a) = []
  body_checks (event_body e) =
      (
        leb (text_size e.message) 4096 && leb (text_size e.category) 256 && leb e.severity 2,
        "Invalid event.",
      )
      ∷ []
  body_checks no_body = (false, "Missing or unknown message body.") ∷ []

  -- `Validate`.
  unfoldable pub validate_envelope : Envelope → Answer (Unit {0})
  validate_envelope m = run_checks (header_checks m ++ body_checks m.body)

  abbrev pub validated : Envelope → Answer (Unit {0}) → Answer Envelope
  validated m (answered u) = answered m
  validated m (thrown e) = thrown e

  abbrev pub serialized : Envelope → Answer (Unit {0}) → Answer Frame
  serialized m (answered u) = answered (serialize m)
  serialized m (thrown e) = thrown e

  -- `Encode`.
  unfoldable pub encode : Envelope → Answer Frame
  encode m = serialized m (validate_envelope m)

  abbrev pub malformed : String → Answer Envelope
  malformed text = thrown (process_error "PROCESS_PROTOCOL_INVALID" text)

  abbrev pub parsed : Option Envelope → Answer Envelope
  parsed none = malformed "Malformed protobuf."
  parsed (some m) = validated m (validate_envelope m)

  -- `Decode`.
  unfoldable pub decode : Frame → Answer Envelope
  decode bytes =
      if not (frame_size bytes == 0) && leb (frame_size bytes) max_frame_bytes
      then parsed (parse bytes)
      else malformed "Invalid frame size."

-- `Message`, without a body.
abbrev pub new_message : ℕ → ℕ → Body → Envelope
new_message generation correlation body = record {
  major = protocol_major;
  minor = protocol_minor;
  generation = generation;
  correlation = correlation;
  parent = 0;
  body = body;
}

abbrev pub no_payload : Payload
no_payload = record { schema_id = ""; json = "" }

-- `Response(status, diagnostic)`.
abbrev pub new_response : Status → String → Response
new_response status diagnostic = record {
  status = status;
  diagnostic = diagnostic;
  payload = no_payload;
  handle = 0;
  effect_indeterminate = false;
}
