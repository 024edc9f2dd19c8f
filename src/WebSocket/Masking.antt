-- ===== src/WebSocket/Masking.antt =====
-- The mask as RFC 6455 describes it, its four bytes in turn, and that the code applies this one.
use web_frame.Prelude.{ℕ, suc, ◌%◌, ◌≡◌, refl, ◌∙◌, List, [], ◌∷◌, get_or, ap, arith}
use web_frame.WebSocket.Frame.{xor_bits, mask_from, apply_mask}

unfoldable pub masked_in_turn : (a b c d : ℕ) → List ℕ → List ℕ
masked_in_turn a b c d [] = []
masked_in_turn a b c d (x ∷ xs) = xor_bits 8 x a ∷ masked_in_turn b c d a xs

unfoldable pub client_mask : List ℕ → List ℕ → List ℕ
client_mask mask payload =
    masked_in_turn (get_or mask 0 0) (get_or mask 1 0) (get_or mask 2 0) (get_or mask 3 0) payload

abbrev byte_of : List ℕ → ℕ → ℕ
byte_of mask i = get_or mask (i % 4) 0

four_later : (i : ℕ) → suc (suc (suc (suc i))) % 4 ≡ i % 4
four_later i = omega arith

-- From any index on, the bytes of the mask come in turn.
mask_from-masked_in_turn :
    (i : ℕ) (mask xs : List ℕ)
    → mask_from i mask xs
      ≡ masked_in_turn
          (byte_of mask i)
          (byte_of mask (suc i))
          (byte_of mask (suc (suc i)))
          (byte_of mask (suc (suc (suc i))))
          xs
unfolding mask_from masked_in_turn
mask_from-masked_in_turn i mask [] = refl
mask_from-masked_in_turn i mask (x ∷ xs) =
    ap (λ ys. xor_bits 8 x (byte_of mask i) ∷ ys)
      (mask_from-masked_in_turn (suc i) mask xs
        ∙ ap
            (λ r.
              masked_in_turn (byte_of mask (suc i)) (byte_of mask (suc (suc i)))
                (byte_of mask (suc (suc (suc i)))) (get_or mask r 0) xs)
            (four_later i))

pub apply_mask-client_mask : (mask xs : List ℕ) → apply_mask mask xs ≡ client_mask mask xs
unfolding apply_mask client_mask
apply_mask-client_mask mask xs = mask_from-masked_in_turn 0 mask xs
