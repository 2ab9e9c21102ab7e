-- ===== src/Bridge/Envelopes.antt =====
-- The `core` object of sdk/ts/src/bridge.ts: certificates, contents and envelopes.
use gossveil.Base.{ℕ, ◌==◌, Bool, Bytes, Text, Option, none, some, [], if◌then◌else◌}
use mathlib.Core.Option.{get_or}
use gossveil.Fault.{Result, ok}
use gossveil.Bridge.Call.{Platform, to, ◌▹◌, bytes, text, num, out, pad, finish, first, flag}
use gossveil.Bridge.View.{get_uint8, get_uint32, get_uint64, get_bytes}

pub record ServerCertInfo : Type 0 where
  pub key_id : ℕ
  pub key : Bytes
  pub body : Bytes
  pub signature : Bytes

pub record SenderCertInfo : Type 0 where
  pub device : ℕ
  pub expires_ms : ℕ
  pub key : Bytes
  pub sender_id : Bytes
  pub phone : Option Bytes
  pub server_cert : Bytes
  pub body : Bytes
  pub signature : Bytes

pub record ContentInfo : Type 0 where
  pub kind : ℕ
  pub hint : ℕ
  pub body : Bytes
  pub sender_cert : Bytes
  pub circle_id : Option Bytes

-- `x === null ? 0 : 1`.
abbrev pub is_given : {A : Type 0} → Option A → ℕ
is_given none = 0
is_given (some a) = 1

module _ (p : Platform) where
  unfoldable pub server_cert : ℕ → Bytes → Bytes → Result Bytes
  unfolding to first
  server_cert key_id key trust_secret =
      first p (to "gv_server_cert" ▹ num key_id ▹ bytes key ▹ bytes trust_secret ▹ out)

  unfoldable pub server_cert_parse : Bytes → Result ServerCertInfo
  unfolding to finish get_uint32 get_bytes
  server_cert_parse cert =
      finish p (to "gv_server_cert_parse" ▹ bytes cert ▹ pad 40 ▹ out ▹ out) (λ r. ok (record {
        key_id = get_uint32 (r.pads 0) 0;
        key = get_bytes (r.pads 0) 4 33;
        body = r.outs 0;
        signature = r.outs 1;
      }))

  unfoldable pub server_cert_check : Bytes → Bytes → Result Bool
  unfolding to flag
  server_cert_check cert trust_root =
      flag p (to "gv_server_cert_check" ▹ bytes cert ▹ bytes trust_root)

  unfoldable pub sender_cert : Text → Option Text → ℕ → Bytes → ℕ → Bytes → Bytes → Result Bytes
  unfolding to first
  sender_cert sender_id phone device key expires_ms server_cert server_secret = first p (
      to "gv_sender_cert"
      ▹ text sender_id
      ▹ text (get_or phone [])
      ▹ num device
      ▹ bytes key
      ▹ num expires_ms
      ▹ bytes server_cert
      ▹ bytes server_secret
      ▹ out)

  unfoldable pub sender_cert_parse : Bytes → Result SenderCertInfo
  unfolding to finish get_uint8 get_uint32 get_uint64 get_bytes
  sender_cert_parse cert =
      finish p (to "gv_sender_cert_parse" ▹ bytes cert ▹ pad 56 ▹ out ▹ out ▹ out ▹ out ▹ out) (λ r.
        let v = r.pads 0 in
        ok (record {
          device = get_uint32 v 0;
          expires_ms = get_uint64 v 8;
          key = get_bytes v 16 33;
          sender_id = r.outs 0;
          phone = if get_uint8 v 49 == 1 then some (r.outs 1) else none;
          server_cert = r.outs 2;
          body = r.outs 3;
          signature = r.outs 4;
        }))

  unfoldable pub sender_cert_check : Bytes → Bytes → ℕ → Result Bool
  unfolding to flag
  sender_cert_check cert trust_root now_ms =
      flag p (to "gv_sender_cert_check" ▹ bytes cert ▹ bytes trust_root ▹ num now_ms)

  unfoldable pub content : ℕ → Bytes → Bytes → ℕ → Option Bytes → Result Bytes
  unfolding to first
  content kind sender_cert body hint circle_id = first p (
      to "gv_content"
      ▹ num kind
      ▹ bytes sender_cert
      ▹ bytes body
      ▹ num hint
      ▹ bytes (get_or circle_id [])
      ▹ num (is_given circle_id)
      ▹ out)

  unfoldable pub content_parse : Bytes → Result ContentInfo
  unfolding to finish get_uint8
  content_parse content =
      finish p (to "gv_content_parse" ▹ bytes content ▹ pad 4 ▹ out ▹ out ▹ out) (λ r.
        let v = r.pads 0 in
        ok (record {
          kind = get_uint8 v 0;
          hint = get_uint8 v 1;
          body = r.outs 0;
          sender_cert = r.outs 1;
          circle_id = if get_uint8 v 2 == 1 then some (r.outs 2) else none;
        }))

  unfoldable pub envelope_seal : Bytes → Bytes → Bytes → Result Bytes
  unfolding to first
  envelope_seal identity_secret recipient_identity content = first p (
      to "gv_envelope_seal"
      ▹ bytes identity_secret
      ▹ bytes recipient_identity
      ▹ bytes content
      ▹ out)

  unfoldable pub envelope_open : Bytes → Bytes → Result Bytes
  unfolding to first
  envelope_open identity_secret envelope =
      first p (to "gv_envelope_open" ▹ bytes identity_secret ▹ bytes envelope ▹ out)

  unfoldable pub envelope_seal_many : Bytes → Bytes → Bytes → Bytes → Result Bytes
  unfolding to first
  envelope_seal_many identity_secret recipients excluded content = first p (
      to "gv_envelope_seal_many"
      ▹ bytes identity_secret
      ▹ bytes recipients
      ▹ bytes excluded
      ▹ bytes content
      ▹ out)

  unfoldable pub envelope_for_single : Bytes → Result Bytes
  unfolding to first
  envelope_for_single sent = first p (to "gv_envelope_for_single" ▹ bytes sent ▹ out)

  unfoldable pub envelope_for_recipient : Bytes → Bytes → ℕ → Result Bytes
  unfolding to first
  envelope_for_recipient sent service_id device =
      first p (to "gv_envelope_for_recipient" ▹ bytes sent ▹ bytes service_id ▹ num device ▹ out)
