-- ===== src/Bridge/Memory/Bytes.antt =====
-- The bytes in the regions of a call: `In`, `Out` and `Pad` of sdk/ts/src/core.ts on linear memory.
use gossveil.Base.{
  ℕ, zero, suc, ◌+◌, ◌<◌, ◌≤◌, ◌≡◌, refl, [], ◌∷◌, Bytes, length, ◌==◌, if◌then◌else◌, arith, inl,
  inr, ◌⊎◌,
}

-- Linear memory: the byte at each address.
abbrev pub Linear : Type 0
Linear = ℕ → ℕ

unfoldable pub put_byte : ℕ → ℕ → Linear → Linear
put_byte at b m i = if i == at then b else m i

-- `new Uint8Array(buffer, ptr, data.length).set(data)`.
unfoldable pub write : ℕ → Bytes → Linear → Linear
write ptr [] m = m
write ptr (b ∷ source) m = put_byte ptr b (write (suc ptr) source m)

-- `new Uint8Array(buffer, ptr, len)`, copied out.
unfoldable pub read : ℕ → ℕ → Linear → Bytes
read ptr zero m = []
read ptr (suc len) m = m ptr ∷ read (suc ptr) len m

-- No address is in both regions.
abbrev pub Apart : ℕ → ℕ → ℕ → ℕ → Type 0
Apart p n q k = (p + n ≤ q) ⊎ (q + k ≤ p)

write_before :
    (ptr : ℕ) (source : Bytes) (m : Linear) (i : ℕ) → i < ptr → write ptr source m i ≡ m i
unfolding write put_byte
write_before ptr [] m i lt = refl
write_before ptr (b ∷ source) m i lt = ground (arith, write_before (suc ptr) source m i)

write_after :
    (ptr : ℕ) (source : Bytes) (m : Linear) (i : ℕ)
    → ptr + length source ≤ i
    → write ptr source m i ≡ m i
unfolding write put_byte
write_after ptr [] m i le = refl
write_after ptr (b ∷ source) m i le = ground (arith, write_after (suc ptr) source m i)

pub write_outside :
    (ptr : ℕ) (source : Bytes) (m : Linear) (i : ℕ)
    → (i < ptr) ⊎ (ptr + length source ≤ i)
    → write ptr source m i ≡ m i
write_outside ptr source m i (inl lt) = write_before ptr source m i lt
write_outside ptr source m i (inr le) = write_after ptr source m i le

pub read_same :
    (p n : ℕ) (m m' : Linear)
    → ((i : ℕ) → p ≤ i → i < p + n → m i ≡ m' i)
    → read p n m ≡ read p n m'
unfolding read
read_same p zero m m' h = refl
read_same p (suc n) m m' h =
    let tail = read_same (suc p) n m m' (λ i le lt. h i (omega arith) (omega arith)) in
    cc (h p (omega arith) (omega arith), tail)

-- What is written to a region is read from it.
pub read-write :
    (ptr : ℕ) (source : Bytes) (m : Linear) → read ptr (length source) (write ptr source m) ≡ source
unfolding read write put_byte
read-write ptr [] m = refl
read-write ptr (b ∷ source) m =
    let rest = write (suc ptr) source m in
    let first : put_byte ptr b rest ptr ≡ b = ground arith in
    let others =
      read_same (suc ptr) (length source) (put_byte ptr b rest) rest (λ i le lt. ground arith) in
    cc (first, others, read-write (suc ptr) source m)

-- What is written elsewhere does not show.
pub read-write-Apart :
    (p n q : ℕ) (source : Bytes) (m : Linear)
    → Apart p n q (length source)
    → read p n (write q source m) ≡ read p n m
read-write-Apart p n q source m h = read_same p n (write q source m) m λ i le lt.
    write_outside q source m i
      (elim h [ inl before ↦ inl (omega arith) | inr after ↦ inr (omega arith) ])
