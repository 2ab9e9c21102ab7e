-- ===== src/Bridge/Sessions/Layout/Header.antt =====
-- The region that `sessionStart` lays out against `GvPublished` of include/gossveil.h, as the C
-- declaration places its fields on wasm32.
use gossveil.Base.{
  ℕ, ◌+◌, ◌-◌, ◌*◌, ◌/◌, ◌%◌, ◌^◌, ◌≤◌, ◌≡◌, refl, List, [], ◌∷◌, Bytes, some, length, arith,
  get_or, ◌==◌, if◌then◌else◌, Bool-cases, ==_iff, false, inl, inr, ◌∙◌, ◌⊎◌,
}
use mathlib.Core.Option
use gossveil.Bridge.View.{Region, get_uint32, signed_id, set_uint32, id_word, get_uint64, get_uint8}
use gossveil.Bridge.View.RoundTrip.{
  get_uint32-set_uint32, get_uint32-set_uint32_ne, signed_id_of_word, id_word-lt,
}
use gossveil.Bridge.Sessions.Layout.{Published, published_layout}

-- The fields of the C struct by their sizes; each is aligned to its size.
abbrev pub field_sizes : List ℕ
field_sizes = 4 ∷ 4 ∷ 8 ∷ 4 ∷ 4 ∷ 4 ∷ 4 ∷ 4 ∷ 4 ∷ 4 ∷ 4 ∷ 4 ∷ 4 ∷ 4 ∷ 4 ∷ 4 ∷ 4 ∷ []

-- The offset of each field, from the first free byte.
unfoldable pub offsets : ℕ → List ℕ → List ℕ
offsets free [] = []
offsets free (size ∷ sizes) =
    let at = (free + size - 1) / size * size in at ∷ offsets (at + size) sizes

abbrev pub offset : ℕ → ℕ
unfolding offsets
offset i = get_or (offsets 0 field_sizes) i 0

-- The struct as the core reads it: field `i` of the declaration.
abbrev pub field : Region → ℕ → ℕ
unfolding offset
field v i = get_uint32 v (offset i)

-- A region as its 32-bit writes, the last one first.
write_all : List (ℕ × ℕ) → Region → Region
write_all [] v = v
write_all ((at, n) ∷ ws) v = set_uint32 at n (write_all ws v)

abbrev word_at : ℕ → List (ℕ × ℕ) → ℕ
word_at j [] = 0
word_at j ((at, n) ∷ ws) = if at == j then n % 2 ^ 32 else word_at j ws

abbrev IsAligned : List (ℕ × ℕ) → Type 0
IsAligned [] = Unit
IsAligned ((at, n) ∷ ws) = (at % 4 ≡ 0) × IsAligned ws

get_uint32-write_all :
    (j : ℕ) (ws : List (ℕ × ℕ))
    → j % 4 ≡ 0
    → IsAligned ws
    → get_uint32 (write_all ws (λ _. 0)) j ≡ word_at j ws
unfolding write_all
get_uint32-write_all j [] h a = unfold get_uint32 get_uint8 in refl
get_uint32-write_all j ((at, n) ∷ ws) h (aligned, rest) = elim (Bool-cases (at == j)) [
  | inl same ↦
      rw same (rw (← (==_iff at j).0 same) (get_uint32-set_uint32 at n (write_all ws (λ _. 0))))
  | inr other ↦ rw other (
      get_uint32-set_uint32_ne at n (write_all ws (λ _. 0)) j (apart at j aligned h other)
      ∙ get_uint32-write_all j ws h rest)
]
  where
    apart : (at j : ℕ) → at % 4 ≡ 0 → j % 4 ≡ 0 → (at == j) ≡ false → (j + 4 ≤ at) ⊎ (at + 4 ≤ j)
    apart at j p q ne = ground arith

module _ (pointer : ℕ → ℕ) (b : Published) where
  slot : ℕ → ℕ → Bytes → List (ℕ × ℕ) → List (ℕ × ℕ)
  slot at i input ws = (at + 4, length input) ∷ (at, pointer i) ∷ ws

  writes : List (ℕ × ℕ)
  unfolding slot
  writes =
      (52, b.pq_id)
      ∷ (24, b.signed_id)
      ∷ slot 64 7 b.pq_signature (
          slot 56 6 b.pq_key (
            slot 44 5 b.identity (
              slot 36 4 b.signed_signature (
                slot 28 3 b.signed_key (
                  slot 16 2 (Option.get_or b.one_time []) (
                    (12, id_word b.one_time_id / 2 ^ 32)
                    ∷ (8, id_word b.one_time_id)
                    ∷ (4, b.device)
                    ∷ (0, b.registration_id)
                    ∷ []))))))

  layout-writes : published_layout pointer b ≡ write_all writes (λ _. 0)
  unfolding published_layout write_all writes
  layout-writes = refl

  writes-IsAligned : IsAligned writes
  unfolding writes
  writes-IsAligned = omega arith

  field-layout :
      (i : ℕ) → offset i % 4 ≡ 0 → field (published_layout pointer b) i ≡ word_at (offset i) writes
  unfolding offset
  field-layout i h = rw layout-writes (get_uint32-write_all (offset i) writes h writes-IsAligned)

-- The pointer and the length of one input, as the two fields from `i` on.
abbrev pub SlotReads : Region → ℕ → ℕ → Bytes → Type 0
unfolding offset
SlotReads v i pointer input =
    (field v i ≡ pointer % 2 ^ 32) × (field v (i + 1) ≡ length input % 2 ^ 32)

-- What the core finds in the struct, field by field in the order of the declaration.
pub record HeaderReads (to_number : ℕ → ℕ) (pointer : ℕ → ℕ) (b : Published) (v : Region)
    : Type 0 where
  pub registration_id : field v 0 ≡ b.registration_id % 2 ^ 32
  pub device : field v 1 ≡ b.device % 2 ^ 32
  pub one_time_id : signed_id to_number v (offset 2) ≡ b.one_time_id
  pub one_time : SlotReads v 3 (pointer 2) (Option.get_or b.one_time [])
  pub signed_id : field v 5 ≡ b.signed_id % 2 ^ 32
  pub signed_key : SlotReads v 6 (pointer 3) b.signed_key
  pub signed_signature : SlotReads v 8 (pointer 4) b.signed_signature
  pub identity : SlotReads v 10 (pointer 5) b.identity
  pub pq_id : field v 12 ≡ b.pq_id % 2 ^ 32
  pub pq_key : SlotReads v 13 (pointer 6) b.pq_key
  pub pq_signature : SlotReads v 15 (pointer 7) b.pq_signature

module _ (to_number : ℕ → ℕ) (pointer : ℕ → ℕ) (b : Published) where
  abbrev layout : Region
  layout = published_layout pointer b

  at_field :
      (i : ℕ)
      → offset i % 4 ≡ 0
      → {n : ℕ} → word_at (offset i) (writes pointer b) ≡ n
      → field layout i ≡ n
  at_field i h e = field-layout pointer b i h ∙ e

  id_reads :
      ((n : ℕ) → n ≤ 2 ^ 53 → to_number n ≡ n)
      → ((n : ℕ) → b.one_time_id ≡ some n → n ≤ 2 ^ 53)
      → signed_id to_number layout 8 ≡ b.one_time_id
  unfolding writes
  id_reads exact fits =
      signed_id_of_word to_number exact 8 b.one_time_id layout
        (rw layout-writes (
          unfold get_uint64 in
          rw
            (
              get_uint32-write_all 8 (writes pointer b) refl (writes-IsAligned pointer b),
              get_uint32-write_all 12 (writes pointer b) refl (writes-IsAligned pointer b),
            )
            (omega (arith, id_word-lt b.one_time_id))))
        fits

  -- Read at the offsets of the C declaration, the region holds the fields of the bundle, numbers
  -- modulo 2 ^ 32 and each array as its pointer and length, where the one-time id is at most 2 ^ 53
  -- and `Number` is exact up to there.
  pub layout-HeaderReads :
      ((n : ℕ) → n ≤ 2 ^ 53 → to_number n ≡ n)
      → ((n : ℕ) → b.one_time_id ≡ some n → n ≤ 2 ^ 53)
      → HeaderReads to_number pointer b layout
  unfolding writes offset
  layout-HeaderReads exact fits = record {
    registration_id = at_field 0 refl refl;
    device = at_field 1 refl refl;
    one_time_id = id_reads exact fits;
    one_time = (at_field 3 refl refl, at_field 4 refl refl);
    signed_id = at_field 5 refl refl;
    signed_key = (at_field 6 refl refl, at_field 7 refl refl);
    signed_signature = (at_field 8 refl refl, at_field 9 refl refl);
    identity = (at_field 10 refl refl, at_field 11 refl refl);
    pq_id = at_field 12 refl refl;
    pq_key = (at_field 13 refl refl, at_field 14 refl refl);
    pq_signature = (at_field 15 refl refl, at_field 16 refl refl);
  }
