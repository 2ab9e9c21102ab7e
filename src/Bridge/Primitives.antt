-- ===== src/Bridge/Primitives.antt =====
-- The `core` object of sdk/ts/src/bridge.ts: the version, key derivation, encryption, random bytes
-- and the tags of a stream.
use gossveil.Base.{ℕ, Bytes, Option, []}
use mathlib.Core.Option.{get_or}
use gossveil.Fault.{Result, ok}
use gossveil.Bridge.Call.{Platform, to, ◌▹◌, bytes, num, out, first, status, invoke}
use gossveil.Bridge.Envelopes.{is_given}

module _ (p : Platform) where
  unfoldable pub abi_version : Result ℕ
  unfolding to invoke
  abi_version = invoke p (to "gv_abi_version") (λ r. ok r.status)

  unfoldable pub hkdf : Bytes → Option Bytes → Bytes → ℕ → Result Bytes
  unfolding to first
  hkdf material salt info length = first p (
      to "gv_hkdf"
      ▹ bytes material
      ▹ bytes (get_or salt [])
      ▹ num (is_given salt)
      ▹ bytes info
      ▹ num length
      ▹ out)

  unfoldable pub siv_seal : Bytes → Bytes → Bytes → Bytes → Result Bytes
  unfolding to first
  siv_seal key nonce plain aad =
      first p (to "gv_siv_seal" ▹ bytes key ▹ bytes nonce ▹ bytes plain ▹ bytes aad ▹ out)

  unfoldable pub siv_open : Bytes → Bytes → Bytes → Bytes → Result Bytes
  unfolding to first
  siv_open key nonce sealed aad =
      first p (to "gv_siv_open" ▹ bytes key ▹ bytes nonce ▹ bytes sealed ▹ bytes aad ▹ out)

  unfoldable pub random : ℕ → Result Bytes
  unfolding to first
  random length = first p (to "gv_random" ▹ num length ▹ out)

  unfoldable pub chunk_tags : Bytes → ℕ → Bytes → Result Bytes
  unfolding to first
  chunk_tags key chunk data_bytes =
      first p (to "gv_chunk_tags" ▹ bytes key ▹ num chunk ▹ bytes data_bytes ▹ out)

  unfoldable pub chunk_check : Bytes → ℕ → Bytes → Bytes → Result (Unit {0})
  unfolding to status
  chunk_check key chunk data_bytes tags =
      status p (to "gv_chunk_check" ▹ bytes key ▹ num chunk ▹ bytes data_bytes ▹ bytes tags)
