-- ===== src/Bridge/Circles.antt =====
-- The `core` object of sdk/ts/src/bridge.ts: circles, which the package calls sender keys.
use gossveil.Base.{ℕ, Bytes}
use gossveil.Fault.{Result, ok}
use gossveil.Bridge.Call.{Platform, to, ◌▹◌, bytes, out, pad, finish, first}
use gossveil.Bridge.View.{get_uint8, get_uint32, get_bytes}

pub record Announced : Type 0 where
  pub record_bytes : Bytes
  pub announce : Bytes

pub record Announcement : Type 0 where
  pub version : ℕ
  pub circle_id : Bytes
  pub chain_id : ℕ
  pub step : ℕ
  pub seed : Bytes
  pub signing : Bytes

pub record NoteSealed : Type 0 where
  pub note : Bytes
  pub record_bytes : Bytes

pub record NoteOpened : Type 0 where
  pub plain : Bytes
  pub record_bytes : Bytes

pub record Note : Type 0 where
  pub version : ℕ
  pub circle_id : Bytes
  pub chain_id : ℕ
  pub step : ℕ
  pub body : Bytes

module _ (p : Platform) where
  unfoldable pub circle_announce : Bytes → Bytes → Result Announced
  unfolding to finish
  circle_announce record_bytes circle_id =
      finish p (to "gv_circle_announce" ▹ bytes record_bytes ▹ bytes circle_id ▹ out ▹ out)
        (λ r. ok (record { record_bytes = r.outs 0; announce = r.outs 1 }))

  unfoldable pub circle_admit : Bytes → Bytes → Result Bytes
  unfolding to first
  circle_admit record_bytes announce =
      first p (to "gv_circle_admit" ▹ bytes record_bytes ▹ bytes announce ▹ out)

  unfoldable pub announce_parse : Bytes → Result Announcement
  unfolding to finish get_uint8 get_uint32 get_bytes
  announce_parse announce = finish p (to "gv_announce_parse" ▹ bytes announce ▹ pad 96) (λ r.
      let v = r.pads 0 in
      ok (record {
        version = get_uint8 v 0;
        circle_id = get_bytes v 1 16;
        chain_id = get_uint32 v 20;
        step = get_uint32 v 24;
        seed = get_bytes v 28 32;
        signing = get_bytes v 60 33;
      }))

  unfoldable pub circle_seal : Bytes → Bytes → Bytes → Result NoteSealed
  unfolding to finish
  circle_seal record_bytes circle_id plain =
      finish p
        (to "gv_circle_seal" ▹ bytes record_bytes ▹ bytes circle_id ▹ bytes plain ▹ out ▹ out)
        (λ r. ok (record { note = r.outs 0; record_bytes = r.outs 1 }))

  unfoldable pub circle_open : Bytes → Bytes → Result NoteOpened
  unfolding to finish
  circle_open record_bytes note =
      finish p (to "gv_circle_open" ▹ bytes record_bytes ▹ bytes note ▹ out ▹ out)
        (λ r. ok (record { plain = r.outs 0; record_bytes = r.outs 1 }))

  unfoldable pub note_parse : Bytes → Result Note
  unfolding to finish get_uint8 get_uint32 get_bytes
  note_parse note = finish p (to "gv_note_parse" ▹ bytes note ▹ pad 28 ▹ out) (λ r.
      let v = r.pads 0 in
      ok (record {
        version = get_uint8 v 0;
        circle_id = get_bytes v 1 16;
        chain_id = get_uint32 v 20;
        step = get_uint32 v 24;
        body = r.outs 0;
      }))
