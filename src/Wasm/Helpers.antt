-- ===== src/Wasm/Helpers.antt =====
-- The helpers at the end of sdk/ts/src/wasm-api.ts, and `MessageType` of sdk/ts/src/bridge.ts.
use gossveil.Base.{ℕ, Bytes, Text}
use gossveil.Fault.{Result}
use gossveil.Uuid.{uuid_to_bytes, bytes_to_uuid}

pub data MessageType : Type 0 where
  whisper pre_key sender_key plaintext : MessageType

unfoldable pub message_type_code : MessageType → ℕ
message_type_code whisper = 2
message_type_code pre_key = 3
message_type_code sender_key = 7
message_type_code plaintext = 8

unfoldable pub uuid_from_string : Text → Result Bytes
uuid_from_string s = uuid_to_bytes s

unfoldable pub uuid_to_string : Bytes → Result Text
uuid_to_string bytes = bytes_to_uuid bytes

unfoldable pub message_type_pre_key : ℕ
unfolding message_type_code
message_type_pre_key = message_type_code pre_key

unfoldable pub message_type_sender_key : ℕ
unfolding message_type_code
message_type_sender_key = message_type_code sender_key

unfoldable pub message_type_whisper : ℕ
unfolding message_type_code
message_type_whisper = message_type_code whisper
