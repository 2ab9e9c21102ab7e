-- ===== src/Messages.antt =====
-- The message classes of sdk/ts/src/api.ts. Each keeps its bytes and what the core parsed.
use gossveil.Base.{ℕ, to_uint32, Bytes, Text}
use gossveil.Fault.{Result, ok, ◌>>=◌}
use gossveil.Bridge.Call.{Platform}
use gossveil.Bridge.Sessions.{OpenerInfo, WhisperInfo, opener_parse, whisper_parse}
use gossveil.Bridge.Circles.{Note, Announcement, note_parse, announce_parse}
use gossveil.Bridge.Reports.{
  ReportInfo, report, report_parse, report_in_body, plain_from_report, plain_body,
}
use gossveil.Uuid.{bytes_to_uuid}

-- `CiphertextMessageType`.
pub data CiphertextMessageType : Type 0 where
  whisper pre_key sender_key plaintext : CiphertextMessageType

unfoldable pub type_code : CiphertextMessageType → ℕ
type_code whisper = 2
type_code pre_key = 3
type_code sender_key = 7
type_code plaintext = 8

-- The type is a cast of the core's number, `kind as CiphertextMessageType`, hence any number.
pub record CiphertextMessage : Type 0 where
  pub type : ℕ
  pub bytes : Bytes

pub record WhisperMessage : Type 0 where
  pub bytes : Bytes
  pub info : WhisperInfo
  pub body : Bytes

pub record PreKeyMessage : Type 0 where
  pub bytes : Bytes
  pub info : OpenerInfo
  pub inner : Bytes

pub record SenderKeyMessage : Type 0 where
  pub bytes : Bytes
  pub parsed : Note
  pub distribution_id : Text

pub record SenderKeyDistributionMessage : Type 0 where
  pub bytes : Bytes
  pub parsed : Announcement
  pub distribution_id : Text

-- The four classes that `CiphertextMessage.from` accepts.
pub data AnyMessage : Type 0 where
  of_whisper : WhisperMessage → AnyMessage
  of_pre_key : PreKeyMessage → AnyMessage
  of_sender_key : SenderKeyMessage → AnyMessage
  of_plaintext : Bytes → AnyMessage

unfoldable pub ciphertext_from : AnyMessage → CiphertextMessage
unfolding type_code
ciphertext_from (of_whisper m) = record { type = type_code whisper; bytes = m.bytes }
ciphertext_from (of_pre_key m) = record { type = type_code pre_key; bytes = m.bytes }
ciphertext_from (of_sender_key m) = record { type = type_code sender_key; bytes = m.bytes }
ciphertext_from (of_plaintext b) = record { type = type_code plaintext; bytes = b }

module _ (p : Platform) where
  unfoldable pub whisper_message : Bytes → Result WhisperMessage
  whisper_message bytes = whisper_parse p bytes >>= λ (info, body).
      ok (record { bytes = bytes; info = info; body = body })

  unfoldable pub pre_key_message : Bytes → Result PreKeyMessage
  pre_key_message bytes = opener_parse p bytes >>= λ (info, inner).
      ok (record { bytes = bytes; info = info; inner = inner })

  -- `PreKeyMessage.whisperMessage`.
  unfoldable pub inner_whisper : PreKeyMessage → Result WhisperMessage
  unfolding whisper_message
  inner_whisper m = whisper_message m.inner

  unfoldable pub sender_key_message : Bytes → Result SenderKeyMessage
  sender_key_message bytes = do
    parsed ← note_parse p bytes
    distribution_id ← bytes_to_uuid parsed.circle_id
    ok (record { bytes = bytes; parsed = parsed; distribution_id = distribution_id })

  unfoldable pub distribution_message : Bytes → Result SenderKeyDistributionMessage
  distribution_message bytes = do
    parsed ← announce_parse p bytes
    distribution_id ← bytes_to_uuid parsed.circle_id
    ok (record { bytes = bytes; parsed = parsed; distribution_id = distribution_id })

pub record DecryptionErrorMessage : Type 0 where
  pub bytes : Bytes
  pub parsed : ReportInfo

pub record PlaintextContent : Type 0 where
  pub bytes : Bytes
  pub body : Bytes

module _ (p : Platform) where
  unfoldable pub error_message : Bytes → Result DecryptionErrorMessage
  error_message bytes =
      report_parse p bytes >>= λ parsed. ok (record { bytes = bytes; parsed = parsed })

  -- `DecryptionErrorMessage.forOriginal`.
  unfoldable pub error_for_original : Bytes → ℕ → ℕ → ℕ → Result DecryptionErrorMessage
  unfolding error_message
  error_for_original bytes type timestamp device =
      report p bytes type timestamp (to_uint32 device) >>= error_message

  -- `DecryptionErrorMessage.extractFromSerializedBody`.
  unfoldable pub error_in_body : Bytes → Result DecryptionErrorMessage
  unfolding error_message
  error_in_body body = report_in_body p body >>= error_message

  unfoldable pub plaintext_content : Bytes → Result PlaintextContent
  plaintext_content bytes =
      plain_body p bytes >>= λ body. ok (record { bytes = bytes; body = body })

  -- `PlaintextContent.from`.
  unfoldable pub plaintext_from : DecryptionErrorMessage → Result PlaintextContent
  unfolding plaintext_content
  plaintext_from m = plain_from_report p m.bytes >>= plaintext_content
