-- ===== src/Range/Selection.antt =====
-- The normalization of a range against an independent description of the bytes that it selects.
use web_frame.Prelude.{ℕ, ◌<◌, ◌≡◌, Bool, true, false, ◌&&◌, Option, none, some, ltb, arith, ◌≤◌}
use web_frame.Prelude.Int.{ℤ, pos, negsuc, ◌+ℤ◌, ◌-ℤ◌, leb_ℤ, pos_part}
use web_frame.Range.{
  ByteRange, bytes, get_start, get_end, normalize, normalize_ends, normalize_end, normalize_suffix,
}

-- Whether a range selects the byte at a position of a content of `total` bytes: from the first to
-- the last position, from the first position on, or the last bytes.
abbrev selects_ends : Option ℤ → Option ℤ → ℕ → ℕ → Bool
selects_ends (some s) (some e) total i =
    leb_ℤ (pos 0) s && leb_ℤ s (pos i) && leb_ℤ (pos i) e && ltb i total
selects_ends (some s) none total i = leb_ℤ (pos 0) s && leb_ℤ s (pos i) && ltb i total
selects_ends none (some n) total i = leb_ℤ (pos total) (pos i +ℤ n) && ltb i total
selects_ends none none total i = false

unfoldable pub selects : ByteRange → ℕ → ℕ → Bool
unfolding ◌+ℤ◌
selects r total i = selects_ends r.start r.end total i

-- Both ends of the outcome, and whether it is accepted, hold between them the position.
abbrev between : Bool × ByteRange → ℕ → Bool
between (accepted, r) i = accepted && leb_ℤ (get_start r) (pos i) && leb_ℤ (pos i) (get_end r)

selects_ends-normalize :
    (s e : Option ℤ) (total i : ℕ)
    → selects (bytes s e) total i ≡ between (normalize (bytes s e) (pos total)) i
unfolding selects normalize normalize_ends normalize_end normalize_suffix ◌+ℤ◌ ◌-ℤ◌
selects_ends-normalize none none total i = ground arith
selects_ends-normalize none (some e) total i = ground arith
selects_ends-normalize (some s) none total i = ground arith
selects_ends-normalize (some s) (some e) total i = ground arith

-- Normalization accepts a range and leaves its two ends such that a byte lies between them exactly
-- when the range selects it.
pub selects-normalize :
    (r : ByteRange) (total i : ℕ)
    → selects r total i
      ≡ (normalize r (pos total)).0
        && leb_ℤ (get_start (normalize r (pos total)).1) (pos i)
        && leb_ℤ (pos i) (get_end (normalize r (pos total)).1)
selects-normalize r total i = selects_ends-normalize r.start r.end total i

-- An accepted range of a content lies within it, and is not empty.
pub record IsWithin (r : ByteRange) (total : ℕ) : Type 0 where
  pub first : ℕ
  pub last : ℕ
  pub start_eq : r.start ≡ some (pos first)
  pub end_eq : r.end ≡ some (pos last)
  pub first≤last : first ≤ last
  pub last<total : last < total

-- The ends that normalization leaves, for each shape of a range.
normalize_ends-start :
    (s e : Option ℤ) (total : ℕ)
    → (normalize (bytes s e) (pos total)).0 ≡ true
    → (normalize (bytes s e) (pos total)).1.start
      ≡ some (pos (pos_part (get_start (normalize (bytes s e) (pos total)).1)))
unfolding normalize normalize_ends normalize_end normalize_suffix ◌-ℤ◌
normalize_ends-start none none total h = ground arith
normalize_ends-start none (some e) total h = ground arith
normalize_ends-start (some (pos s)) none total h = ground arith
normalize_ends-start (some (pos s)) (some e) total h = ground arith
normalize_ends-start (some (negsuc s)) e total h = ground arith

normalize_ends-end :
    (s e : Option ℤ) (total : ℕ)
    → (normalize (bytes s e) (pos total)).0 ≡ true
    → (normalize (bytes s e) (pos total)).1.end
      ≡ some (pos (pos_part (get_end (normalize (bytes s e) (pos total)).1)))
unfolding normalize normalize_ends normalize_end normalize_suffix ◌-ℤ◌
normalize_ends-end none none total h = ground arith
normalize_ends-end none (some e) total h = ground arith
normalize_ends-end (some s) none total h = ground arith
normalize_ends-end (some s) (some (pos e)) total h = ground arith
normalize_ends-end (some s) (some (negsuc e)) total h = ground arith

normalize_ends-ordered :
    (s e : Option ℤ) (total : ℕ)
    → (normalize (bytes s e) (pos total)).0 ≡ true
    → (pos_part (get_start (normalize (bytes s e) (pos total)).1)
        ≤ pos_part (get_end (normalize (bytes s e) (pos total)).1))
      × (pos_part (get_end (normalize (bytes s e) (pos total)).1) < total)
unfolding normalize normalize_ends normalize_end normalize_suffix ◌-ℤ◌
normalize_ends-ordered none none total h = ground arith
normalize_ends-ordered none (some e) total h = ground arith
normalize_ends-ordered (some (pos s)) none total h = ground arith
normalize_ends-ordered (some (pos s)) (some e) total h = ground arith
normalize_ends-ordered (some (negsuc s)) e total h = ground arith

-- A range that normalization accepts has two ends, in order, within the content.
pub normalize-IsWithin :
    (r : ByteRange) (total : ℕ)
    → (normalize r (pos total)).0 ≡ true
    → IsWithin (normalize r (pos total)).1 total
normalize-IsWithin r total h = record {
  first = pos_part (get_start (normalize r (pos total)).1);
  last = pos_part (get_end (normalize r (pos total)).1);
  start_eq = normalize_ends-start r.start r.end total h;
  end_eq = normalize_ends-end r.start r.end total h;
  first≤last = (normalize_ends-ordered r.start r.end total h).0;
  last<total = (normalize_ends-ordered r.start r.end total h).1;
}
