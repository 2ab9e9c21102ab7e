-- ===== src/Bridge/Sessions/Layout.antt =====
-- `Published` of sdk/ts/src/bridge.ts, and the 72-byte struct that `sessionStart` lays out for it.
pub mod Header
use gossveil.Base.{ℕ, ◌+◌, List, [], ◌∷◌, Bytes, Option, none, some, length}
use mathlib.Core.Option.{get_or}
use gossveil.Bridge.View.{Region, set_uint32, set_int64, id_word}

pub record Published : Type 0 where
  pub registration_id : ℕ
  pub device : ℕ
  pub one_time_id : Option ℕ
  pub one_time : Option Bytes
  pub signed_id : ℕ
  pub signed_key : Bytes
  pub signed_signature : Bytes
  pub identity : Bytes
  pub pq_id : ℕ
  pub pq_key : Bytes
  pub pq_signature : Bytes

-- One slot of the loop: the pointer and the length of an input.
unfoldable pub put_slot : ℕ → ℕ → Bytes → Region → Region
unfolding set_uint32
put_slot at pointer input v = set_uint32 (at + 4) (length input) (set_uint32 at pointer v)

-- The writes in their order, over the zeroed region. `pointer i` is the place of input `i`; the
-- slots hold the inputs from number 2 on.
unfoldable pub published_layout : (ℕ → ℕ) → Published → Region
unfolding put_slot set_int64 id_word
published_layout pointer b =
    let v0 : Region = λ _. 0 in
    let v1 = set_uint32 0 b.registration_id v0 in
    let v2 = set_uint32 4 b.device v1 in
    let v3 = set_int64 8 (id_word b.one_time_id) v2 in
    let v4 = put_slot 16 (pointer 2) (get_or b.one_time []) v3 in
    let v5 = put_slot 28 (pointer 3) b.signed_key v4 in
    let v6 = put_slot 36 (pointer 4) b.signed_signature v5 in
    let v7 = put_slot 44 (pointer 5) b.identity v6 in
    let v8 = put_slot 56 (pointer 6) b.pq_key v7 in
    let v9 = put_slot 64 (pointer 7) b.pq_signature v8 in
    set_uint32 52 b.pq_id (set_uint32 24 b.signed_id v9)
