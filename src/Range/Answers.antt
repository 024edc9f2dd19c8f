-- ===== src/Range/Answers.antt =====
-- The answers to a request with byte ranges: their lengths, their bytes and their status.
use web_frame.Prelude.{
  ℕ, ◌+◌, ◌-◌, ◌^◌, ◌≤◌, ◌<◌, ◌≡◌, refl, true, false, ◌&&◌, Option, some, [], ◌∷◌, if◌then◌else◌,
  take, drop, length, leb, ltb, ap, sym, ◌∙◌, arith, le→ltb, Bool-cases, inl, inr, length-take,
  length-drop,
}
use web_frame.Prelude.Int.{ℤ, pos, ◌-ℤ◌, ◌+ℤ◌}
use web_frame.Prelude.Bytes.{codes}
use web_frame.Prelude.Text.{Text, is_empty, to_decimal, decimal_from}
use web_frame.Core.Request.{Request}
use web_frame.Core.Response.{
  Response, header_value, set_header, not_found, set_status, set_entry, find_entry,
  find_entry-set_entry,
}
use web_frame.Range.{ByteRange, size_of, normalize}
use web_frame.Range.Pick.{pick, pick_none, pick_slice, pick-ext}
use web_frame.Range.Selection.{selects, selects-normalize, IsWithin, normalize-IsWithin}
use web_frame.Range.Parse.{RangeHeader, is_valid}
use web_frame.Range.Builder.{
  Outside, set_validators, typed, to_content_range, single_response, to_size, content_size,
  RangeResponseBuilder, finish, build, build_sized, build_single_range, build_valid, range_data,
  read_file_range, substr, valid_ranges, range_not_satisfiable, check_if_range, get_range,
}

-- The length that a response announces is that of its body.
abbrev pub HasLength : Response → Type 0
HasLength r = header_value r (codes "Content-Length") ≡ some (to_decimal (length r.body))

pub finish-HasLength : (body : Text) (r : Response) → HasLength (finish body r)
unfolding header_value set_header
finish-HasLength body r =
    find_entry-set_entry (codes "Content-Length") (codes "Content-Length")
      (to_decimal (length body)) r.headers

pub not_satisfiable-HasLength : (total : ℤ) → HasLength (range_not_satisfiable total)
unfolding header_value set_header range_not_satisfiable set_status to_decimal decimal_from set_entry
    find_entry
not_satisfiable-HasLength total = refl

pub not_found-HasLength : (body : Text) → HasLength (not_found body)
unfolding header_value not_found find_entry
not_found-HasLength body = refl

size_between : (a c : ℕ) → a ≤ c → pos c -ℤ pos a +ℤ pos 1 ≡ pos (c + 1 - a)
unfolding ◌-ℤ◌ ◌+ℤ◌
size_between a c h = ground arith

size_of-IsWithin :
    (r : ByteRange) (total : ℕ) (w : IsWithin r total) → size_of r ≡ pos (w.last + 1 - w.first)
unfolding size_of
size_of-IsWithin r total w =
    rw (size_of, w.end_eq, w.start_eq) (size_between w.first w.last w.first≤last)

to_size_small : (n : ℕ) → n < 2 ^ 63 → to_size (pos n) ≡ n
to_size_small n h = omega arith

substr_within :
    (a n : ℕ) (s : Text)
    → a ≤ length s
    → length s < 2 ^ 63
    → n < 2 ^ 63
    → substr (to_size (pos a)) (to_size (pos n)) s ≡ some (take n (drop a s))
unfolding substr
substr_within a n s h small k =
    rw (to_size_small a (omega arith), to_size_small n k, le→ltb (length s) a h) refl

-- Whether a range is accepted decides the bytes that it selects.
selects_accepted :
    (r : ByteRange) (total i : ℕ)
    → (normalize r (pos total)).0 ≡ true
    → (w : IsWithin (normalize r (pos total)).1 total)
    → (leb w.first i && ltb i (w.first + (w.last + 1 - w.first))) ≡ selects r total i
selects_accepted r total i h w =
    let order = w.first≤last in
    rw (selects-normalize r total i, h, w.start_eq, w.end_eq) (ground arith)

selects_refused :
    (r : ByteRange) (total i : ℕ) → (normalize r (pos total)).0 ≡ false → selects r total i ≡ false
selects_refused r total i h = rw (selects-normalize r total i, h) refl

single-status :
    (b : RangeResponseBuilder) (r : ByteRange) (total : ℤ) (body : Text)
    → (single_response b r total body).status ≡ 206
unfolding set_header set_status
single-status b r total body = ground arith

not_empty : (s : Text) → 1 ≤ length s → is_empty s ≡ false
not_empty [] h = ground arith
not_empty (c ∷ s) h = refl

slice_not_empty :
    (text : Text) (r : ByteRange) (w : IsWithin r (length text))
    → is_empty (take (w.last + 1 - w.first) (drop w.first text)) ≡ false
slice_not_empty text r w =
    let order = w.first≤last in
    let bound = w.last<total in
    not_empty (take (w.last + 1 - w.first) (drop w.first text)) (
      omega
        (arith, length-take (w.last + 1 - w.first) (drop w.first text), length-drop w.first text))

-- The answer to one range: the bytes that it selects, as partial content, or the refusal of a
-- range that selects none.
pub record IsAnswer (r : ByteRange) (text : Text) (resp : Response) : Type 0 where
  body_eq : resp.body ≡ pick (selects r (length text)) text
  status_eq : resp.status ≡ (if is_empty resp.body then 416 else 206)
  has_length : HasLength resp

pub single-HasLength :
    (b : RangeResponseBuilder) (r : ByteRange) (total : ℤ) (body : Text)
    → HasLength (single_response b r total body)
single-HasLength b r total body = finish-HasLength body (
    set_validators b
      (set_header (codes "Content-Range") (to_content_range r total) (typed 206 b.content_type)))

single-IsAnswer :
    (b : RangeResponseBuilder) (r : ByteRange) (text : Text)
    (accepted : (normalize r (pos (length text))).0 ≡ true)
    → (let w = normalize-IsWithin r (length text) accepted in
        IsAnswer r text (
          single_response b
            (normalize r (pos (length text))).1
            (pos (length text))
            (take (w.last + 1 - w.first) (drop w.first text))))
unfolding set_header
single-IsAnswer b r text accepted =
    let w = normalize-IsWithin r (length text) accepted in
    let n = (normalize r (pos (length text))).1 in
    record {
      body_eq =
          sym (pick_slice w.first (w.last + 1 - w.first) text)
          ∙ pick-ext (λ i. leb w.first i && ltb i (w.first + (w.last + 1 - w.first)))
              (selects r (length text)) text (λ i. selects_accepted r (length text) i accepted w);
      status_eq =
          single-status b n (pos (length text)) (take (w.last + 1 - w.first) (drop w.first text))
          ∙ ap (λ e. if e then 416 else 206) (sym (slice_not_empty text n w));
      has_length =
          single-HasLength b n (pos (length text))
            (take (w.last + 1 - w.first) (drop w.first text));
    }

refused-IsAnswer :
    (r : ByteRange) (text : Text)
    → (normalize r (pos (length text))).0 ≡ false
    → IsAnswer r text (range_not_satisfiable (pos (length text)))
unfolding range_not_satisfiable set_header set_status
refused-IsAnswer r text refused = record {
  body_eq =
      sym
        (pick_none (selects r (length text)) text (λ i. selects_refused r (length text) i refused));
  status_eq = refl;
  has_length = not_satisfiable-HasLength (pos (length text));
}

module _ {ℓ} {Tm : Type ℓ} (o : Outside Tm) (b : RangeResponseBuilder) where
  -- The content: the bytes that were given, or those of the file if it can be opened.
  abbrev pub content_of : Option Text
  content_of = if b.use_file then o.disk b.file_path else some b.content

  pub content_size-content_of :
      (text : Text) → content_of ≡ some text → content_size o b ≡ some (pos (length text))
  content_size-content_of text h = ground arith

  -- An accepted range gives its slice of the content, with no exception.
  pub range_data-IsWithin :
      (r : ByteRange) (text : Text) (w : IsWithin r (length text))
      → content_of ≡ some text
      → length text < 2 ^ 63
      → range_data o b r ≡ some (take (w.last + 1 - w.first) (drop w.first text))
  unfolding range_data read_file_range
  range_data-IsWithin r text w h small = elim (Bool-cases b.use_file) [
    | inl file ↦
        let found : o.disk b.file_path ≡ some text = ground arith in
        rw
          (range_data, read_file_range, file, found, size_of-IsWithin r (length text) w, w.start_eq)
          refl
    | inr memory ↦
        let given : b.content ≡ text = ground arith in
        rw (range_data, memory, size_of-IsWithin r (length text) w, w.start_eq, given)
          (substr_within w.first (w.last + 1 - w.first) text
            (let l = w.last<total in let f = w.first≤last in omega arith) small
            (let l = w.last<total in omega arith))
  ]

  build_valid-one :
      (r : ByteRange) (text : Text)
      → content_of ≡ some text
      → length text < 2 ^ 63
      → (resp : Response) × (build_valid o b
            (valid_ranges (r ∷ []) (pos (length text)))
            (pos (length text))
          ≡ some resp)
        × IsAnswer r text resp
  unfolding build_valid build_single_range valid_ranges
  build_valid-one r text h small = elim (Bool-cases (normalize r (pos (length text))).0) [
    | inl accepted ↦
        let w = normalize-IsWithin r (length text) accepted in
        let n = (normalize r (pos (length text))).1 in
        let slice = take (w.last + 1 - w.first) (drop w.first text) in
        (
          single_response b n (pos (length text)) slice,
          rw (valid_ranges, accepted, build_single_range, range_data-IsWithin n text w h small)
              refl,
          single-IsAnswer b r text accepted,
        )
    | inr refused ↦ (
      range_not_satisfiable (pos (length text)),
      rw (valid_ranges, refused) refl,
      refused-IsAnswer r text refused,
    )
  ]

  -- A request for one range, which no If-Range holds back.
  pub build-one_range :
      (req : Request) (text : Text) (h : RangeHeader) (r : ByteRange)
      → content_of ≡ some text
      → length text < 2 ^ 63
      → get_range req ≡ some h
      → is_valid h ≡ true
      → h.ranges ≡ r ∷ []
      → check_if_range o req b.etag b.last_modified ≡ true
      → (resp : Response) × (build o b req ≡ some resp) × IsAnswer r text resp
  unfolding build build_sized
  build-one_range req text h r c small g v e passed =
      let (resp, built, answer) = build_valid-one r text c small in
      (resp, rw (build, content_size-content_of text c, build_sized, g, v, passed, e) built, answer)
