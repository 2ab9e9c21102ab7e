-- ===== src/Bridge/Keys.antt =====
-- The `core` object of sdk/ts/src/bridge.ts: keys and published key records.
use gossveil.Base.{ℕ, Bool, Bytes}
use gossveil.Fault.{Result, ok}
use gossveil.Bridge.Call.{
  Platform, Reply, to, ◌▹◌, bytes, num, out, pad, finish, first, status, flag,
}
use gossveil.Bridge.View.{get_uint32, get_uint64}

abbrev pub pq_round_three : ℕ
pq_round_three = 0x08

abbrev pub pq_standard : ℕ
pq_standard = 0x0a

pub record KeyPair : Type 0 where
  pub secret : Bytes
  pub public_key : Bytes

pub record Encapsulated : Type 0 where
  pub capsule : Bytes
  pub shared : Bytes

pub record OneTimeParsed : Type 0 where
  pub id : ℕ
  pub public_key : Bytes
  pub secret : Bytes

pub record SignedParsed : Type 0 where
  pub id : ℕ
  pub stamp : ℕ
  pub public_key : Bytes
  pub secret : Bytes
  pub signature : Bytes

module _ (p : Platform) where
  unfoldable pub curve_pair : Result KeyPair
  unfolding to finish
  curve_pair =
      finish p (to "gv_curve_pair" ▹ out ▹ out)
        (λ r. ok (record { secret = r.outs 0; public_key = r.outs 1 }))

  unfoldable pub curve_public : Bytes → Result Bytes
  unfolding to first
  curve_public secret = first p (to "gv_curve_public" ▹ bytes secret ▹ out)

  unfoldable pub curve_sign : Bytes → Bytes → Result Bytes
  unfolding to first
  curve_sign secret message = first p (to "gv_curve_sign" ▹ bytes secret ▹ bytes message ▹ out)

  unfoldable pub curve_verify : Bytes → Bytes → Bytes → Result Bool
  unfolding to flag
  curve_verify public_key message signature =
      flag p (to "gv_curve_verify" ▹ bytes public_key ▹ bytes message ▹ bytes signature)

  unfoldable pub curve_agree : Bytes → Bytes → Result Bytes
  unfolding to first
  curve_agree secret public_key =
      first p (to "gv_curve_agree" ▹ bytes secret ▹ bytes public_key ▹ out)

  unfoldable pub curve_check : Bytes → Result (Unit {0})
  unfolding to status
  curve_check public_key = status p (to "gv_curve_check" ▹ bytes public_key)

  unfoldable pub pq_pair : ℕ → Result KeyPair
  unfolding to finish
  pq_pair scheme =
      finish p (to "gv_pq_pair" ▹ num scheme ▹ out ▹ out)
        (λ r. ok (record { secret = r.outs 1; public_key = r.outs 0 }))

  unfoldable pub pq_encapsulate : Bytes → Result Encapsulated
  unfolding to finish
  pq_encapsulate public_key =
      finish p (to "gv_pq_encapsulate" ▹ bytes public_key ▹ out ▹ out)
        (λ r. ok (record { capsule = r.outs 0; shared = r.outs 1 }))

  unfoldable pub pq_open : Bytes → Bytes → Result Bytes
  unfolding to first
  pq_open secret capsule = first p (to "gv_pq_open" ▹ bytes secret ▹ bytes capsule ▹ out)

  unfoldable pub identity_serialize : Bytes → Result Bytes
  unfolding to first
  identity_serialize secret = first p (to "gv_identity_serialize" ▹ bytes secret ▹ out)

  unfoldable pub identity_parse : Bytes → Result KeyPair
  unfolding to finish
  identity_parse serialized =
      finish p (to "gv_identity_parse" ▹ bytes serialized ▹ out ▹ out)
        (λ r. ok (record { secret = r.outs 1; public_key = r.outs 0 }))

  unfoldable pub identity_vouch : Bytes → Bytes → Result Bytes
  unfolding to first
  identity_vouch secret other = first p (to "gv_identity_vouch" ▹ bytes secret ▹ bytes other ▹ out)

  unfoldable pub identity_vouched : Bytes → Bytes → Bytes → Result Bool
  unfolding to flag
  identity_vouched public_key other signature =
      flag p (to "gv_identity_vouched" ▹ bytes public_key ▹ bytes other ▹ bytes signature)

  unfoldable pub one_time_record : ℕ → Bytes → Result Bytes
  unfolding to first
  one_time_record id secret = first p (to "gv_one_time_record" ▹ num id ▹ bytes secret ▹ out)

  unfoldable pub one_time_parse : Bytes → Result OneTimeParsed
  unfolding to finish get_uint32
  one_time_parse record_bytes =
      finish p (to "gv_one_time_parse" ▹ bytes record_bytes ▹ pad 4 ▹ out ▹ out) (λ r.
        ok (record { id = get_uint32 (r.pads 0) 0; public_key = r.outs 0; secret = r.outs 1 }))

  unfoldable pub signed_record : ℕ → ℕ → Bytes → Bytes → Result Bytes
  unfolding to first
  signed_record id stamp secret signature =
      first p (to "gv_signed_record" ▹ num id ▹ num stamp ▹ bytes secret ▹ bytes signature ▹ out)

  -- How `signedParse` and `pqRecordParse` read their two pads and three outputs.
  read_signed : Reply → Result SignedParsed
  unfolding get_uint32 get_uint64
  read_signed r = ok (record {
    id = get_uint32 (r.pads 0) 0;
    stamp = get_uint64 (r.pads 1) 0;
    public_key = r.outs 0;
    secret = r.outs 1;
    signature = r.outs 2;
  })

  unfoldable pub signed_parse : Bytes → Result SignedParsed
  unfolding to finish read_signed
  signed_parse record_bytes =
      finish p (to "gv_signed_parse" ▹ bytes record_bytes ▹ pad 4 ▹ pad 8 ▹ out ▹ out ▹ out)
        read_signed

  unfoldable pub pq_record : ℕ → ℕ → Bytes → Bytes → Bytes → Result Bytes
  unfolding to first
  pq_record id stamp public_key secret signature = first p (
      to "gv_pq_record"
      ▹ num id
      ▹ num stamp
      ▹ bytes public_key
      ▹ bytes secret
      ▹ bytes signature
      ▹ out)

  unfoldable pub pq_record_parse : Bytes → Result SignedParsed
  unfolding to finish read_signed
  pq_record_parse record_bytes =
      finish p (to "gv_pq_record_parse" ▹ bytes record_bytes ▹ pad 4 ▹ pad 8 ▹ out ▹ out ▹ out)
        read_signed
