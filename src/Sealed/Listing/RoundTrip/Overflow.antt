-- ===== src/Sealed/Listing/RoundTrip/Overflow.antt =====
-- The count in front of the listing of sdk/ts/src/api.ts, which is one byte.
use gossveil.Base.{
  ℕ, zero, suc, ◌%◌, ◌≤◌, ◌≡◌, ◌≢◌, sym, ◌∙◌, List, ◌∷◌, map, Bytes, some, length, arith, inl, inr,
  ap, Option-cases,
}
use gossveil.Fault.{ok, Result-cases}
use gossveil.Sealed.Listing.{Recipient, push_recipients, to_bytes, listing}
use gossveil.Sealed.Listing.RoundTrip.{read_recipient, read_more, read_recipients, read_listing}

-- The reader takes as many recipients as the count says.
length-read_recipients :
    (n : ℕ) (s : Bytes) (rs : List Recipient) (rest : Bytes)
    → read_recipients n s ≡ some (rs, rest)
    → length rs ≡ n
unfolding read_recipients read_more
length-read_recipients zero s rs rest h = ground arith
length-read_recipients (suc n) s rs rest h = elim (Option-cases (read_recipient s)) [
  | inl e ↦ absurd (ground (arith, e))
  | inr ((r, more), e) ↦ elim (Option-cases (read_recipients n more)) [
    | inl e' ↦ absurd (ground (arith, e, e'))
    | inr ((rs', end), e') ↦
        let same = length-read_recipients n more rs' end e' in ground (arith, e, e', same)
  ]
]

-- The first byte of a listing is the number of recipients modulo 256.
listing-count :
    (rs : List Recipient) (s : Bytes)
    → listing rs ≡ ok s
    → (rest : Bytes) × (s ≡ length rs % 256 ∷ rest)
unfolding listing to_bytes
listing-count rs s h = elim (Result-cases (push_recipients rs)) [
  | inl (pushed, e) ↦ (map (λ n. n % 256) pushed, ground (arith, e))
  | inr (f, e) ↦ absurd (ground (arith, e))
]

-- A listing of 256 or more recipients, if it is made, is not read back as those recipients.
pub read_listing_overflow :
    (rs : List Recipient) (s rest : Bytes)
    → listing rs ≡ ok s
    → 256 ≤ length rs
    → read_listing s ≢ some (rs, rest)
unfolding read_listing
read_listing_overflow rs s rest h many back =
    let (body, e) = listing-count rs s h in
    let read : read_recipients (length rs % 256) body ≡ some (rs, rest) =
      sym (ap read_listing e) ∙ back in
    let same = length-read_recipients (length rs % 256) body rs rest read in
    absurd (omega (arith, same, many))
