-- ===== src/Process/Frames.antt =====
-- Protocol.cpp of source/ARTestEngine.Process: what `Encode` and `Decode` answer.
use artest_cli.Base.{
  ◌≡◌, ◌≢◌, ◌≤◌, ◌<◌, Bool, true, false, Option, none, some, List, [], ◌∷◌, ◌++◌, String, arith,
  ◌↔◌, refl, sym, ap, subst, ◌∙◌, ◌⊎◌, is_empty, length, not, ◌||◌,
}
use mathlib.Core.Bool.{true≢false}
use artest_cli.Process.Wire.{
  IsMessage, Payload, Status, ok, Body, Envelope, Answer, answered, thrown, Codec, hello_body,
  request_body, response_body, cancel_body, event_body, no_body, is_operation, is_status, is_ok,
  run_checks, validate_envelope, encode, decode, serialized, validated, parsed, header_checks,
  payload_checks, body_checks,
}

run_checks-append :
    (xs ys : List (Bool × String))
    → run_checks (xs ++ ys) ≡ answered tt
    → (run_checks xs ≡ answered tt) × (run_checks ys ≡ answered tt)
run_checks-append [] ys e = (refl, e)
run_checks-append ((true, s) ∷ xs) ys e = run_checks-append xs ys e
run_checks-append ((false, s) ∷ xs) ys e = cc

module _ (c : Codec) where
  open c use {Frame, frame_size, byte_size, serialize, parse, text_size, is_json}

  -- The limits on a message's header.
  abbrev pub HasHeader : Envelope → Type 0
  HasHeader m =
      (m.major ≡ 0)
      × (m.minor ≡ 2)
      × (m.generation ≢ 0)
      × (m.correlation ≢ 0)
      × (byte_size m ≤ 1048576)

  abbrev pub HasPayload : Payload → Type 0
  HasPayload p =
      (text_size p.schema_id ≤ 256)
      × (text_size p.json ≤ 1048576)
      × ((is_empty p.json ≡ true) ⊎ ((is_empty p.schema_id ≡ false) × (is_json p.json ≡ true)))

  -- The limits on a message's body.
  abbrev pub HasBody : Body → Type 0
  HasBody (hello_body h) =
      (is_empty h.extension_id ≡ false)
      × (text_size h.extension_id ≤ 256)
      × (text_size h.fingerprint ≡ 64)
      × (length h.nonce ≡ 32)
  HasBody (request_body r) =
      (is_operation r.operation ≡ true)
      × (text_size r.type_id ≤ 256)
      × (text_size r.operation_id ≤ 256)
      × HasPayload r.payload
  HasBody (response_body r) =
      (is_status r.status ≡ true)
      × ((r.effect_indeterminate ≡ true) → r.status ≢ ok)
      × (text_size r.diagnostic ≤ 4096)
      × HasPayload r.payload
  HasBody (cancel_body a) = Unit
  HasBody (event_body e) =
      (text_size e.message ≤ 4096) × (text_size e.category ≤ 256) × (e.severity ≤ 2)
  HasBody no_body = ⊥

  HasHeader_lem : (m : Envelope) → run_checks (header_checks c m) ≡ answered tt → HasHeader m
  HasHeader_lem m e = ground arith

  HasPayload_lem : (p : Payload) → run_checks (payload_checks c p) ≡ answered tt → HasPayload p
  HasPayload_lem p e = ground arith

  not_ok : (b : Bool) (s : Status) → (not b || not (is_ok s)) ≡ true → b ≡ true → s ≢ ok
  not_ok true s h t e = true≢false (sym h ∙ ap (λ x. not (is_ok x)) e)
  not_ok false s h t e = true≢false (sym t)

  HasBody_lem : (b : Body) → run_checks (body_checks c b) ≡ answered tt → HasBody b
  HasBody_lem (hello_body h) e = ground arith
  HasBody_lem (request_body r) e = ground (arith, HasPayload_lem r.payload)
  HasBody_lem (response_body r) e =
      ground (arith, HasPayload_lem r.payload, not_ok r.effect_indeterminate r.status)
  HasBody_lem (cancel_body a) e = tt
  HasBody_lem (event_body v) e = ground arith
  HasBody_lem no_body e = cc

  serialized_lem :
      (m : Envelope) (f : Frame) (v : Answer (Unit {0}))
      → serialized c m v ≡ answered f
      → (v ≡ answered tt) × (f ≡ serialize m)
  serialized_lem m f (answered u) e = (refl, cc)
  serialized_lem m f (thrown x) e = cc

  encode_lem :
      (m : Envelope) (f : Frame)
      → encode c m ≡ answered f
      → (validate_envelope c m ≡ answered tt) × (f ≡ serialize m)
  unfolding encode
  encode_lem m f e = serialized_lem m f (validate_envelope c m) e

  decode_valid :
      (m : Envelope) (f : Frame)
      → 0 < frame_size f
      → frame_size f ≤ 1048576
      → parse f ≡ some m
      → validate_envelope c m ≡ answered tt
      → decode c f ≡ answered m
  unfolding decode
  decode_valid m f h k p v = rw (p, v) (ground arith)

  validated_lem :
      (m n : Envelope) (v : Answer (Unit {0}))
      → validated c n v ≡ answered m
      → (v ≡ answered tt) × (n ≡ m)
  validated_lem m n (answered u) e = (refl, cc)
  validated_lem m n (thrown x) e = cc

  parsed_lem :
      (m : Envelope) (o : Option Envelope)
      → parsed c o ≡ answered m
      → (o ≡ some m) × (validate_envelope c m ≡ answered tt)
  parsed_lem m none e = cc
  parsed_lem m (some n) e =
      let (v, q) = validated_lem m n (validate_envelope c n) e in
      (ap some q, subst (λ x. validate_envelope c x ≡ answered tt) q v)

  decode_lem :
      (m : Envelope) (f : Frame)
      → decode c f ≡ answered m
      → (frame_size f ≤ 1048576) × (parsed c (parse f) ≡ answered m)
  unfolding decode
  decode_lem m f e = ground arith

  validate-Has : (m : Envelope) → validate_envelope c m ≡ answered tt → HasHeader m × HasBody m.body
  unfolding validate_envelope
  validate-Has m v =
      let (h, b) = run_checks-append (header_checks c m) (body_checks c m.body) v in
      (HasHeader_lem m h, HasBody_lem m.body b)

  encode_valid :
      (m : Envelope) → validate_envelope c m ≡ answered tt → encode c m ≡ answered (serialize m)
  unfolding encode
  encode_valid m v = rw v refl

  -- For a message that proto3 can write, the checks of the sender and those of the receiver agree:
  -- it is encoded, and then as what protobuf writes, exactly if what protobuf writes is decoded, and
  -- then to the message itself.
  pub decode-encode :
      (m : Envelope)
      → IsMessage c.is_utf8 m
      → (encode c m ≡ answered (serialize m)) ↔ (decode c (serialize m) ≡ answered m)
  decode-encode m w = (
    λ e.
        let (v, _) = encode_lem m (serialize m) e in
        let (x, y, g, z, size) = (validate-Has m v).0 in
        decode_valid m (serialize m) (rw (c.frame_size-serialize m w) (c.generation_written m w g))
          (rw (c.frame_size-serialize m w) size) (c.parse-serialize m w) v,
    λ d. encode_valid m (parsed_lem m (parse (serialize m)) (decode_lem m (serialize m) d).1).1,
  )

  -- A decoded message is what protobuf reads, of the engine's version, and within every limit.
  pub decode-Has :
      (m : Envelope) (f : Frame)
      → decode c f ≡ answered m
      → (frame_size f ≤ 1048576) × (parse f ≡ some m) × HasHeader m × HasBody m.body
  decode-Has m f e =
      let (size, q) = decode_lem m f e in
      let (p, v) = parsed_lem m (parse f) q in let (h, b) = validate-Has m v in (size, p, h, b)
