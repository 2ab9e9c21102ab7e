-- ===== src/Bridge/Handles.antt =====
-- The `core` object of sdk/ts/src/bridge.ts: safety numbers and handles.
pub mod Lines
use gossveil.Base.{ℕ, Bool, List, [], ◌∷◌, Text, Bytes, Option, ◌==◌, if◌then◌else◌, length}
use mathlib.Core.Option.{get_or}
use gossveil.Fault.{Result, ok}
use gossveil.Bridge.Call.{Platform, to, ◌▹◌, bytes, text, num, out, finish, first, flag}

pub record Safety : Type 0 where
  pub display : Text
  pub scannable : Bytes

pub record HandleParts : Type 0 where
  pub handle : Text
  pub hash : Bytes

pub record HandleLink : Type 0 where
  pub entropy : Bytes
  pub sealed : Bytes

-- A character in front of the first piece.
push : ℕ → List Text → List Text
push c [] = (c ∷ []) ∷ []
push c (piece ∷ pieces) = (c ∷ piece) ∷ pieces

-- `s.split(sep)` for one character: there is always a first piece.
unfoldable pub split : ℕ → Text → List Text
unfolding push
split sep [] = [] ∷ []
split sep (c ∷ s) = let rest = split sep s in if c == sep then [] ∷ rest else push c rest

-- `text.length === 0 ? [] : text.split('\n')`.
unfoldable pub lines : Text → List Text
unfolding split
lines s = if length s == 0 then [] else split 10 s

module _ (p : Platform) where
  unfoldable pub safety : ℕ → ℕ → Bytes → Bytes → Bytes → Bytes → Result Safety
  unfolding to finish
  safety version iterations local_id local_key remote_id remote_key =
      finish p
        (to "gv_safety"
          ▹ num version
          ▹ num iterations
          ▹ bytes local_id
          ▹ bytes local_key
          ▹ bytes remote_id
          ▹ bytes remote_key
          ▹ out
          ▹ out)
        (λ r. ok (record { display = p.decode (r.outs 0); scannable = r.outs 1 }))

  unfoldable pub safety_matches : Bytes → Bytes → Result Bool
  unfolding to flag
  safety_matches ours theirs = flag p (to "gv_safety_matches" ▹ bytes ours ▹ bytes theirs)

  unfoldable pub handle_hash : Text → Result Bytes
  unfolding to first
  handle_hash handle = first p (to "gv_handle_hash" ▹ text handle ▹ out)

  unfoldable pub handle_proof : Text → Bytes → Result Bytes
  unfolding to first
  handle_proof handle randomness =
      first p (to "gv_handle_proof" ▹ text handle ▹ bytes randomness ▹ out)

  unfoldable pub handle_verify : Bytes → Bytes → Result Bool
  unfolding to flag
  handle_verify proof hash = flag p (to "gv_handle_verify" ▹ bytes proof ▹ bytes hash)

  unfoldable pub handle_candidates : Text → ℕ → ℕ → Result (List Text)
  unfolding to finish lines
  handle_candidates nickname min_len max_len =
      finish p (to "gv_handle_candidates" ▹ text nickname ▹ num min_len ▹ num max_len ▹ out)
        (λ r. ok (lines (p.decode (r.outs 0))))

  unfoldable pub handle_from_parts : Text → Text → ℕ → ℕ → Result HandleParts
  unfolding to finish
  handle_from_parts nickname discriminator min_len max_len =
      finish p
        (to "gv_handle_from_parts"
          ▹ text nickname
          ▹ text discriminator
          ▹ num min_len
          ▹ num max_len
          ▹ out
          ▹ out)
        (λ r. ok (record { handle = p.decode (r.outs 0); hash = r.outs 1 }))

  unfoldable pub handle_link : Text → Option Bytes → Result HandleLink
  unfolding to finish
  handle_link handle entropy =
      finish p (to "gv_handle_link" ▹ text handle ▹ bytes (get_or entropy []) ▹ out ▹ out)
        (λ r. ok (record { entropy = r.outs 0; sealed = r.outs 1 }))

  unfoldable pub handle_link_open : Bytes → Bytes → Result Text
  unfolding to finish
  handle_link_open entropy sealed =
      finish p (to "gv_handle_link_open" ▹ bytes entropy ▹ bytes sealed ▹ out)
        (λ r. ok (p.decode (r.outs 0)))
