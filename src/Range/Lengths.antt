-- ===== src/Range/Lengths.antt =====
-- Every request for a content is answered, whatever its ranges, and the answer announces the length
-- of its body.
use web_frame.Prelude.{
  ℕ, ◌+◌, ◌-◌, ◌^◌, ◌<◌, ◌≡◌, refl, Bool, true, false, not, Option, none, some, List, [], ◌∷◌, ◌++◌,
  if◌then◌else◌, take, drop, length, arith, Bool-cases, Option-cases, inl, inr, All,
}
use web_frame.Prelude.Int.{pos}
use web_frame.Prelude.Bytes.{codes}
use web_frame.Prelude.Text.{Text}
use web_frame.Core.Request.{Request}
use web_frame.Core.Response.{Response}
use web_frame.Range.{ByteRange, normalize}
use web_frame.Range.Selection.{IsWithin, normalize-IsWithin}
use web_frame.Range.Parse.{is_valid}
use web_frame.Range.Builder.{
  Outside, RangeResponseBuilder, set_validators, typed, part, full_body, content_size, build,
  build_sized, build_full, build_single_range, build_valid, build_multipart_range, multipart_body,
  valid_ranges, check_if_range, get_range, generate_boundary,
}
use web_frame.Range.Answers.{
  HasLength, content_of, content_size-content_of, range_data-IsWithin, single-HasLength,
  finish-HasLength, not_found-HasLength, not_satisfiable-HasLength,
}

-- A response comes back, and it has its length.
abbrev pub Answers : Option Response → Type 0
Answers none = ⊥
Answers (some r) = HasLength r

if-Answers :
    (x y : Option Response) (t : Bool) → Answers x → Answers y → Answers (if t then x else y)
if-Answers x y true h k = h
if-Answers x y false h k = k

valid_ranges-IsWithin :
    (rs : List ByteRange) (total : ℕ) → All (λ r. IsWithin r total) (valid_ranges rs (pos total))
unfolding valid_ranges
valid_ranges-IsWithin [] total = tt
valid_ranges-IsWithin (r ∷ rs) total = elim (Bool-cases (normalize r (pos total)).0) [
  | inl accepted ↦
      rw (valid_ranges, accepted)
        (normalize-IsWithin r total accepted, valid_ranges-IsWithin rs total)
  | inr refused ↦ rw (valid_ranges, refused) (valid_ranges-IsWithin rs total)
]

module _ {ℓ} {Tm : Type ℓ} (o : Outside Tm) (b : RangeResponseBuilder) where
  build_full-HasLength : HasLength (build_full o b)
  unfolding build_full
  build_full-HasLength =
      finish-HasLength (full_body o b) (set_validators b (typed 200 b.content_type))

  module _ (text : Text) (c : content_of o b ≡ some text) (small : length text < 2 ^ 63) where
    multipart_body-some :
        (boundary : Text) (rs : List ByteRange) (written : Text)
        → All (λ r. IsWithin r (length text)) rs
        → (body : Text) × (multipart_body o boundary b (pos (length text)) rs written ≡ some body)
    unfolding multipart_body
    multipart_body-some boundary [] written hs = (_, refl)
    multipart_body-some boundary (r ∷ rs) written (w, hs) =
        let data_eq = range_data-IsWithin o b r text w c small in
        let slice = take (w.last + 1 - w.first) (drop w.first text) in
        let (body, e) =
          multipart_body-some boundary rs (written ++ part boundary b r (pos (length text)) slice)
            hs in
        (body, rw (multipart_body, data_eq) e)

    build_valid-Answers :
        (rs : List ByteRange)
        → All (λ r. IsWithin r (length text)) rs
        → Answers (build_valid o b rs (pos (length text)))
    unfolding build_valid build_single_range build_multipart_range
    build_valid-Answers [] hs = not_satisfiable-HasLength (pos (length text))
    build_valid-Answers (r ∷ []) (w, hs) =
        rw (build_single_range, range_data-IsWithin o b r text w c small)
          (single-HasLength b r (pos (length text))
            (take (w.last + 1 - w.first) (drop w.first text)))
    build_valid-Answers (r ∷ q ∷ rs) hs =
        let boundary = generate_boundary o.draw in
        let (body, e) = multipart_body-some boundary (r ∷ q ∷ rs) [] hs in
        rw (build_multipart_range, e)
          (finish-HasLength body
            (set_validators b (typed 206 (codes "multipart/byteranges; boundary=" ++ boundary))))

    build_sized-Answers : (req : Request) → Answers (build_sized o b req (pos (length text)))
    unfolding build_sized
    build_sized-Answers req = elim (Option-cases (get_range req)) [
      | inl none_given ↦ rw (build_sized, none_given) build_full-HasLength
      | inr (h, given) ↦
          rw (build_sized, given)
            (if-Answers (some (build_full o b)) _ (not (is_valid h)) build_full-HasLength (
              if-Answers (some (build_full o b)) _
                (not (check_if_range o req b.etag b.last_modified)) build_full-HasLength
                (build_valid-Answers (valid_ranges h.ranges (pos (length text)))
                  (valid_ranges-IsWithin h.ranges (length text)))))
    ]

  full_body-content_of : (text : Text) → content_of o b ≡ some text → full_body o b ≡ text
  full_body-content_of text h = ground arith

  content_size-none : content_of o b ≡ none → content_size o b ≡ none
  content_size-none h = ground arith

  -- Every request for a content below 2^63 bytes is answered, with no exception whatever its ranges,
  -- and the answer has a Content-Length that is the length of its body.
  pub build-Answers : (req : Request) → length (full_body o b) < 2 ^ 63 → Answers (build o b req)
  unfolding build
  build-Answers req small = elim (Option-cases (content_of o b)) [
    | inl closed ↦ rw (build, content_size-none closed) (not_found-HasLength (codes "Not Found"))
    | inr (text, c) ↦
        rw (build, content_size-content_of o b text c)
          (build_sized-Answers text c (rw (full_body-content_of text c) at small) req)
  ]
