-- ===== src/Http2/Hpack/Decoder.antt =====
-- `HpackDecoder::decode` and `HpackEncoder::encode` over nghttp2, which is a parameter: its states,
-- one call of the inflater, one call of the deflater, and the changes of the table size.
use web_frame.Prelude.{
  ℕ, zero, suc, ◌≤◌, ◌<◌, ◌≡◌, refl, ◌≢◌, ◌⊎◌, inl, inr, Bool, true, false, Option, none, some,
  List, [], ◌∷◌, ◌++◌, arith, length, drop, length-drop,
}
use web_frame.Prelude.Expected.{Expected, ok, unexpected, io, unknown}
use web_frame.Http2.Hpack.{Header}

-- `nghttp2_hd_inflate_hd2`: an error, or the bytes consumed with the flags EMIT and FINAL.
pub data Inflated : Type 0 where
  inflate_error : Inflated
  inflated : (consumed : ℕ) (emit : Option Header) (final : Bool) → Inflated

pub record Nghttp2 (E D : Type 0) : Type 0 where
  pub inflate : D → List ℕ → D × Inflated
  pub end_headers : D → D
  pub deflate : E → List Header → E × Option (List ℕ)
  pub change_table_size : E → ℕ → E

module _ {E D : Type 0} (lib : Nghttp2 E D) where
  abbrev push : List Header → Option Header → List Header
  push result none = result
  push result (some h) = result ++ h ∷ []

  -- The loop of `decode`, on fuel; `none` means that the fuel ran out.
  unfoldable pub inflate_loop : ℕ → D → List ℕ → List Header → Option (D × Expected (List Header))
  inflate_loop fuel d [] result = some (lib.end_headers d, ok result)
  inflate_loop zero d (b ∷ bs) result = none
  inflate_loop (suc fuel) d (b ∷ bs) result =
      let (d', step) = lib.inflate d (b ∷ bs) in
      elim step [
        | inflate_error ↦ some (d', unexpected (io unknown "HPACK decode error"))
        | inflated consumed emit final ↦ elim final [
          | true ↦ some (lib.end_headers d', ok (push result emit))
          | false ↦ inflate_loop fuel d' (drop consumed (b ∷ bs)) (push result emit)
        ]
      ]

  unfoldable pub decode : D → List ℕ → Option (D × Expected (List Header))
  unfolding inflate_loop
  decode d bytes = inflate_loop (length bytes) d bytes []

  unfoldable pub encode : E → List Header → E × Expected (List ℕ)
  encode e headers =
      let (e', out) = lib.deflate e headers in
      elim out [
        | none ↦ (e', unexpected (io unknown "HPACK encode error"))
        | some bytes ↦ (e', ok bytes)
      ]

  -- Every call that does not end the block takes at least one byte of what is left.
  abbrev pub Progresses : Type 0
  Progresses =
      (d : D) (b : ℕ) (bs : List ℕ) (consumed : ℕ) (emit : Option Header)
      → (lib.inflate d (b ∷ bs)).1 ≡ inflated consumed emit false
      → 0 < consumed

  Inflated-cases :
      (s : Inflated)
      → (s ≡ inflate_error)
        ⊎ ((c : ℕ) × (emit : Option Header) × (final : Bool) × (s ≡ inflated c emit final))
  Inflated-cases inflate_error = inl refl
  Inflated-cases (inflated c emit final) = inr (c, emit, final, refl)

  inflate_loop-ne-none :
      (progress : Progresses) (fuel : ℕ) (d : D) (bytes : List ℕ) (result : List Header)
      → length bytes ≤ fuel
      → inflate_loop fuel d bytes result ≢ none
  unfolding inflate_loop
  inflate_loop-ne-none progress fuel d [] result h = cc
  inflate_loop-ne-none progress zero d (b ∷ bs) result h = absurd (omega arith)
  inflate_loop-ne-none progress (suc fuel) d (b ∷ bs) result h =
      elim (Inflated-cases (lib.inflate d (b ∷ bs)).1) [
        | inl e ↦ ground arith
        | inr (c, emit, true, e) ↦ ground arith
        | inr (c, emit, false, e) ↦ ground (
          arith,
          progress d b bs c emit e,
          length-drop c (b ∷ bs),
          inflate_loop-ne-none progress fuel (lib.inflate d (b ∷ bs)).0 (drop c (b ∷ bs))
              (push result emit),
        )
      ]

  -- If every call of the inflater that succeeds and does not end the block takes at least one byte,
  -- the loop of the decoder ends, whatever the block and the state of the inflater.
  pub decode-ne-none : (progress : Progresses) (d : D) (bytes : List ℕ) → decode d bytes ≢ none
  unfolding decode
  decode-ne-none progress d bytes =
      inflate_loop-ne-none progress (length bytes) d bytes [] (omega arith)
