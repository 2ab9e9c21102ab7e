-- ===== src/Bridge/Handles/Lines.antt =====
-- Splitting the candidates of `handleCandidates` (sdk/ts/src/bridge.ts) out of one text.
use gossveil.Base.{ℕ, ◌≡◌, ◌≢◌, refl, ap, ◌∙◌, List, [], ◌∷◌, ◌++◌, Text, arith, Lacks, All}
use gossveil.Fault.{ok}
use gossveil.Bridge.Call.{Platform, Reply, Arg, replied}
use gossveil.Bridge.Handles.{split, lines, handle_candidates}

-- The pieces with one separator between each two of them: the inverse, as the core writes it.
abbrev pub joined : ℕ → List Text → Text
joined sep [] = []
joined sep (piece ∷ []) = piece
joined sep (piece ∷ next ∷ pieces) = piece ++ sep ∷ joined sep (next ∷ pieces)

split_piece : (sep : ℕ) (piece : Text) → Lacks sep piece → split sep piece ≡ piece ∷ []
unfolding split
split_piece sep [] h = refl
split_piece sep (c ∷ s) (h, hs) = rw (h, split_piece sep s hs)

split-append :
    (sep : ℕ) (piece s : Text)
    → Lacks sep piece
    → split sep (piece ++ sep ∷ s) ≡ piece ∷ split sep s
unfolding split
split-append sep [] s h = ground arith
split-append sep (c ∷ piece) s (h, hs) = rw (h, split-append sep piece s hs)

split-joined :
    (sep : ℕ) (piece : Text) (pieces : List Text)
    → All (Lacks sep) (piece ∷ pieces)
    → split sep (joined sep (piece ∷ pieces)) ≡ piece ∷ pieces
split-joined sep piece [] (h, hs) = split_piece sep piece h
split-joined sep piece (next ∷ pieces) (h, hs) =
    split-append sep piece (joined sep (next ∷ pieces)) h
    ∙ ap (λ l. piece ∷ l) (split-joined sep next pieces hs)

-- The test for the empty text is not met by two names or a name that is not empty.
lines-joined :
    (names : List Text) → All (Lacks 10) names → names ≢ [] ∷ [] → lines (joined 10 names) ≡ names
unfolding lines
lines-joined [] h ne = refl
lines-joined ([] ∷ []) h ne = absurd (ne refl)
lines-joined ((c ∷ s) ∷ []) h ne = ground (arith, split-joined 10 (c ∷ s) [] h)
lines-joined ([] ∷ next ∷ names) h ne = ground (arith, split-joined 10 [] (next ∷ names) h)
lines-joined ((c ∷ s) ∷ next ∷ names) h ne =
    ground (arith, split-joined 10 (c ∷ s) (next ∷ names) h)

-- If the core answers with names, none of which has a line feed and which are not one empty name,
-- joined by line feeds, then the candidates are these names; with no name at all there is none.
pub handle_candidates-joined :
    (p : Platform) (nickname : Text) (min_len max_len : ℕ) (r : Reply) (names : List Text)
    → p.call "gv_handle_candidates"
        (Arg.text nickname ∷ Arg.num min_len ∷ Arg.num max_len ∷ Arg.out ∷ [])
      ≡ replied r
    → r.status ≡ 0
    → p.decode (r.outs 0) ≡ joined 10 names
    → All (Lacks 10) names
    → names ≢ [] ∷ []
    → handle_candidates p nickname min_len max_len ≡ ok names
unfolding handle_candidates
handle_candidates-joined p nickname min_len max_len r names answer fine decoded h ne =
    let same : lines (p.decode (r.outs 0)) ≡ names = ap lines decoded ∙ lines-joined names h ne in
    ground (arith, answer, fine, same)
