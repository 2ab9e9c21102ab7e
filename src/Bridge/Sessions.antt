-- ===== src/Bridge/Sessions.antt =====
-- The `core` object of sdk/ts/src/bridge.ts: sessions.
pub mod Layout
pub use Layout.{Published}
unfoldable pub use Layout.{published_layout}
use gossveil.Base.{ℕ, ◌==◌, Bool, Bytes, Text, Option, none, some, List, [], ◌∷◌, codes}
use mathlib.Core.Option.{get_or}
use gossveil.Fault.{Result, ok}
use gossveil.Bridge.Call.{
  Platform, Call, to, ◌▹◌, bytes, text, num, out, pad, struct, finish, first, flag,
}
use gossveil.Bridge.View.{get_uint8, get_uint32, get_bytes, signed_id}

pub record SessionInfo : Type 0 where
  pub has_live : Bool
  pub can_send : Bool
  pub usable : Bool
  pub version : ℕ
  pub local_registration_id : ℕ
  pub remote_registration_id : ℕ
  pub shelved : ℕ
  pub local_identity : Bytes
  pub remote_identity : Bytes
  pub base : Bytes

pub record Consumed : Type 0 where
  pub used : Bool
  pub one_time_id : Option ℕ
  pub signed_id : ℕ
  pub pq_id : ℕ
  pub base : Bytes

pub record OpenerInfo : Type 0 where
  pub version : ℕ
  pub registration_id : ℕ
  pub one_time_id : Option ℕ
  pub signed_id : ℕ
  pub pq_id : Option ℕ
  pub base : Bytes
  pub identity : Bytes

pub record WhisperInfo : Type 0 where
  pub version : ℕ
  pub index : ℕ
  pub previous_index : ℕ
  pub ratchet : Bytes

pub record Binding : Type 0 where
  pub sender : Option Text
  pub sender_device : ℕ
  pub recipient : Option Text
  pub recipient_device : ℕ

pub record Sealed : Type 0 where
  pub kind : ℕ
  pub sealed : Bytes
  pub record_bytes : Bytes

pub record Opened : Type 0 where
  pub plain : Bytes
  pub record_bytes : Bytes

pub record OpenedFirst : Type 0 where
  pub plain : Bytes
  pub record_bytes : Bytes
  pub consumed : Consumed

-- `bound`: the four arguments that tie a message to its two ends.
unfoldable pub bound : Call → Binding → Call
bound c b =
    c
    ▹ text (get_or b.sender [])
    ▹ num b.sender_device
    ▹ text (get_or b.recipient [])
    ▹ num b.recipient_device

module _ (p : Platform) where
  unfoldable pub session_info : Bytes → ℕ → Result SessionInfo
  unfolding to finish get_uint8 get_uint32 get_bytes
  session_info record_bytes now_secs =
      finish p (to "gv_session_info" ▹ bytes record_bytes ▹ num now_secs ▹ pad 120) (λ r.
        let v = r.pads 0 in
        ok (record {
          has_live = get_uint8 v 0 == 1;
          can_send = get_uint8 v 1 == 1;
          usable = get_uint8 v 2 == 1;
          version = get_uint32 v 4;
          local_registration_id = get_uint32 v 8;
          remote_registration_id = get_uint32 v 12;
          shelved = get_uint32 v 16;
          local_identity = get_bytes v 20 33;
          remote_identity = get_bytes v 53 33;
          base = get_bytes v 86 33;
        }))

  unfoldable pub session_shelve : Bytes → Result Bytes
  unfolding to first
  session_shelve record_bytes = first p (to "gv_session_shelve" ▹ bytes record_bytes ▹ out)

  unfoldable pub session_ratchet_is : Bytes → Bytes → Result Bool
  unfolding to flag
  session_ratchet_is record_bytes key =
      flag p (to "gv_session_ratchet_is" ▹ bytes record_bytes ▹ bytes key)

  -- The struct points into six of the inputs, which follow it here.
  unfoldable pub session_start : Bytes → ℕ → Bytes → Published → ℕ → Result Bytes
  unfolding to first published_layout
  session_start identity_secret registration_id record_bytes b now_secs = first p (
      to "gv_session_start"
      ▹ bytes identity_secret
      ▹ num registration_id
      ▹ bytes record_bytes
      ▹ struct (published_layout p.pointer b) (
          get_or b.one_time []
          ∷ b.signed_key
          ∷ b.signed_signature
          ∷ b.identity
          ∷ b.pq_key
          ∷ b.pq_signature
          ∷ [])
      ▹ num now_secs
      ▹ out)

  unfoldable pub session_seal : Bytes → Bytes → ℕ → Binding → Result Sealed
  unfolding to finish bound get_uint8
  session_seal record_bytes plain now_secs b =
      finish p
        (bound (to "gv_session_seal" ▹ bytes record_bytes ▹ bytes plain ▹ num now_secs) b
          ▹ pad 1
          ▹ out
          ▹ out)
        (λ r.
          ok (record { kind = get_uint8 (r.pads 0) 0; sealed = r.outs 0; record_bytes = r.outs 1 }))

  unfoldable pub session_open : Bytes → Bytes → Binding → Result Opened
  unfolding to finish bound
  session_open record_bytes whisper b =
      finish p (bound (to "gv_session_open" ▹ bytes record_bytes ▹ bytes whisper) b ▹ out ▹ out)
        (λ r. ok (record { plain = r.outs 0; record_bytes = r.outs 1 }))

  unfoldable pub session_open_first :
      Bytes → ℕ → Bytes → Bytes → Bytes → Bytes → Bytes → Binding → Result OpenedFirst
  unfolding to finish bound get_uint8 get_uint32 get_bytes signed_id
  session_open_first identity_secret registration_id record_bytes opener signed one_time pq b =
      finish p
        (bound
            (to "gv_session_open_first"
              ▹ bytes identity_secret
              ▹ num registration_id
              ▹ bytes record_bytes
              ▹ bytes opener
              ▹ bytes signed
              ▹ bytes one_time
              ▹ bytes pq)
            b
          ▹ out
          ▹ out
          ▹ pad 64)
        (λ r.
          let v = r.pads 0 in
          ok (record {
            plain = r.outs 0;
            record_bytes = r.outs 1;
            consumed = record {
              used = get_uint8 v 0 == 1;
              one_time_id = signed_id p.to_number v 8;
              signed_id = get_uint32 v 16;
              pq_id = get_uint32 v 20;
              base = get_bytes v 24 33;
            };
          }))

  unfoldable pub opener_parse : Bytes → Result (OpenerInfo × Bytes)
  unfolding to finish get_uint8 get_uint32 get_bytes signed_id
  opener_parse opener = finish p (to "gv_opener_parse" ▹ bytes opener ▹ pad 104 ▹ out) (λ r.
      let v = r.pads 0 in
      ok (
        record {
          version = get_uint8 v 0;
          registration_id = get_uint32 v 4;
          one_time_id = signed_id p.to_number v 8;
          signed_id = get_uint32 v 16;
          pq_id = signed_id p.to_number v 24;
          base = get_bytes v 32 33;
          identity = get_bytes v 65 33;
        },
        r.outs 0,
      ))

  unfoldable pub whisper_parse : Bytes → Result (WhisperInfo × Bytes)
  unfolding to finish get_uint8 get_uint32 get_bytes
  whisper_parse whisper = finish p (to "gv_whisper_parse" ▹ bytes whisper ▹ pad 48 ▹ out) (λ r.
      let v = r.pads 0 in
      ok (
        record {
          version = get_uint8 v 0;
          index = get_uint32 v 4;
          previous_index = get_uint32 v 8;
          ratchet = get_bytes v 12 33;
        },
        r.outs 0,
      ))
