-- ===== src/Bridge/Reports.antt =====
-- The `core` object of sdk/ts/src/bridge.ts: decryption reports and plaintext contents.
use gossveil.Base.{ℕ, Bytes, Option, some, none, ◌==◌, if◌then◌else◌}
use gossveil.Fault.{Result, ok}
use gossveil.Bridge.Call.{Platform, to, ◌▹◌, bytes, num, out, pad, finish, first}
use gossveil.Bridge.View.{get_uint8, get_uint32, get_uint64, get_bytes}

pub record ReportInfo : Type 0 where
  pub stamp_ms : ℕ
  pub device : ℕ
  pub ratchet : Option Bytes

module _ (p : Platform) where
  unfoldable pub report : Bytes → ℕ → ℕ → ℕ → Result Bytes
  unfolding to first
  report original kind stamp_ms device =
      first p (to "gv_report" ▹ bytes original ▹ num kind ▹ num stamp_ms ▹ num device ▹ out)

  unfoldable pub report_parse : Bytes → Result ReportInfo
  unfolding to finish get_uint8 get_uint32 get_uint64 get_bytes
  report_parse report_bytes = finish p (to "gv_report_parse" ▹ bytes report_bytes ▹ pad 48) (λ r.
      let v = r.pads 0 in
      ok (record {
        stamp_ms = get_uint64 v 0;
        device = get_uint32 v 8;
        ratchet = if get_uint8 v 12 == 1 then some (get_bytes v 13 33) else none;
      }))

  unfoldable pub report_in_body : Bytes → Result Bytes
  unfolding to first
  report_in_body body = first p (to "gv_report_in_body" ▹ bytes body ▹ out)

  unfoldable pub plain_from_report : Bytes → Result Bytes
  unfolding to first
  plain_from_report report_bytes = first p (to "gv_plain_from_report" ▹ bytes report_bytes ▹ out)

  unfoldable pub plain_body : Bytes → Result Bytes
  unfolding to first
  plain_body plain = first p (to "gv_plain_body" ▹ bytes plain ▹ out)
