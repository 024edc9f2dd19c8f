-- ===== src/Range/Requests.antt =====
-- A client's request for one range, from the text of its header to the bytes of the answer.
use web_frame.Prelude.{◌^◌, ◌<◌, ◌≡◌, refl, true, none, some, [], ◌∷◌, ◌++◌, length}
use web_frame.Prelude.Bytes.{codes}
use web_frame.Prelude.Text.{Text}
use web_frame.Core.Request.{Request, header}
use web_frame.Core.Response.{Response}
use web_frame.Range.Parse.{is_valid, header_of}
use web_frame.Range.RoundTrip.{Spec, IsSpec, print_spec, range_of, parse-print_specs}
use web_frame.Range.Builder.{Outside, RangeResponseBuilder, build, check_if_range, get_range}
use web_frame.Range.Answers.{content_of, IsAnswer, build-one_range}

get_range-print_spec :
    (req : Request) (sp : Spec)
    → IsSpec sp
    → header req (codes "Range") ≡ some (codes "bytes=" ++ print_spec sp)
    → get_range req ≡ some (header_of (codes "bytes") (range_of sp ∷ []))
unfolding get_range
get_range-print_spec req sp s h = rw (get_range, h) (parse-print_specs sp [] s tt)

module _ {ℓ} {Tm : Type ℓ} (o : Outside Tm) (b : RangeResponseBuilder) where
  check_if_range_absent :
      (req : Request) (etag last_modified : Text)
      → header req (codes "If-Range") ≡ none
      → check_if_range o req etag last_modified ≡ true
  unfolding check_if_range
  check_if_range_absent req etag last_modified h = rw (check_if_range, h) refl

  -- A request whose Range header is one printed range of 63-bit positions, and that has no If-Range,
  -- is answered for a content below 2^63 bytes: the body is the bytes that the range selects, the
  -- status is 206, or 416 if it selects none, and Content-Length is the length of the body.
  pub build-print_spec :
      (req : Request) (text : Text) (sp : Spec)
      → IsSpec sp
      → content_of o b ≡ some text
      → length text < 2 ^ 63
      → header req (codes "Range") ≡ some (codes "bytes=" ++ print_spec sp)
      → header req (codes "If-Range") ≡ none
      → (resp : Response) × (build o b req ≡ some resp) × IsAnswer (range_of sp) text resp
  unfolding is_valid
  build-print_spec req text sp s c small h absent =
      build-one_range o b req text (header_of (codes "bytes") (range_of sp ∷ [])) (range_of sp) c
        small (get_range-print_spec req sp s h) refl refl
        (check_if_range_absent req b.etag b.last_modified absent)
