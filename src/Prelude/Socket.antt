-- ===== src/Prelude/Socket.antt =====
-- include/coroute/net/io_context.hpp: what the reads of a connection give.
use Prim.Native.Nat.{ℕ, zero, suc, ◌+◌, ◌≤◌, ◌<◌}
use mathlib.Core.Path.{◌≡◌, refl, sym, ap, ◌∙◌}
use mathlib.Core.Bool.{false}
use mathlib.Core.List.{List, [], ◌∷◌, ◌++◌, append_assoc}
use native.Mathlib.Omega.{arith}
use web_frame.Prelude.Expected.{Error}
use web_frame.Prelude.Lists.{length, take, drop, length-append, take-append-drop, length-drop}
use web_frame.Prelude.Text.{Text, is_empty}

-- What the connection will have to read: bytes, or an error; no bytes, and what is beyond the
-- schedule, is the end of the connection.
pub data Input : Type 0 where
  received : List ℕ → Input
  failed : Error → Input

-- Each input may cost a read of its own.
abbrev pub inputs_left : List Input → ℕ
inputs_left [] = 0
inputs_left (received bytes ∷ is) = suc (length bytes + inputs_left is)
inputs_left (failed e ∷ is) = suc (inputs_left is)

-- `async_read(buf, k)`: at most `k` bytes of what has come; the others stay.
pub data ReadResult : Type 0 where
  got : Text → List Input → ReadResult
  error : Error → List Input → ReadResult

abbrev put_back : Text → List Input → List Input
put_back [] is = is
put_back (b ∷ bs) is = received (b ∷ bs) ∷ is

unfoldable pub async_read : ℕ → List Input → ReadResult
async_read k [] = got [] []
async_read k (received bytes ∷ is) = got (take k bytes) (put_back (drop k bytes) is)
async_read k (failed e ∷ is) = error e is

-- The connection stays open and without errors.
abbrev pub OnlyReceived : List Input → Type 0
OnlyReceived [] = Unit
OnlyReceived (received [] ∷ is) = ⊥
OnlyReceived (received (b ∷ bs) ∷ is) = OnlyReceived is
OnlyReceived (failed e ∷ is) = ⊥

abbrev pub bytes_of : List Input → Text
bytes_of [] = []
bytes_of (received bytes ∷ is) = bytes ++ bytes_of is
bytes_of (failed e ∷ is) = []

-- A read with room takes bytes off the front, one at least.
pub record Takes (k : ℕ) (is : List Input) : Type 0 where
  pub bytes : Text
  pub after : List Input
  pub reads : async_read k is ≡ got bytes after
  pub some_bytes : is_empty bytes ≡ false
  pub at_most : length bytes ≤ k
  pub front : bytes_of is ≡ bytes ++ bytes_of after
  pub still : OnlyReceived after
  pub falls : inputs_left after < inputs_left is

put_back-OnlyReceived :
    (bs : Text) (is : List Input) → OnlyReceived is → OnlyReceived (put_back bs is)
put_back-OnlyReceived [] is h = h
put_back-OnlyReceived (b ∷ bs) is h = h

bytes_of-put_back : (bs : Text) (is : List Input) → bytes_of (put_back bs is) ≡ bs ++ bytes_of is
bytes_of-put_back [] is = refl
bytes_of-put_back (b ∷ bs) is = refl

pub inputs_left-put_back :
    (bs : Text) (is : List Input) → inputs_left (put_back bs is) ≤ suc (length bs + inputs_left is)
inputs_left-put_back [] is = omega arith
inputs_left-put_back (b ∷ bs) is = omega arith

pub length-take_le : (k : ℕ) (xs : Text) → length (take k xs) ≤ k
length-take_le zero xs = omega arith
length-take_le (suc k) [] = omega arith
length-take_le (suc k) (x ∷ xs) = omega (arith, length-take_le k xs)

pub async_read-Takes :
    (k : ℕ) (is : List Input) → OnlyReceived is → 1 ≤ length (bytes_of is) → 1 ≤ k → Takes k is
unfolding async_read
async_read-Takes k [] h l p = absurd (omega arith)
async_read-Takes k (failed e ∷ is) h l p = absurd h
async_read-Takes k (received [] ∷ is) h l p = absurd h
async_read-Takes zero (received (b ∷ bs) ∷ is) h l p = absurd (omega arith)
async_read-Takes (suc k) (received (b ∷ bs) ∷ is) h l p = record {
  bytes = b ∷ take k bs;
  after = put_back (drop k bs) is;
  reads = refl;
  some_bytes = refl;
  at_most = omega (arith, length-take_le k bs);
  front =
      ap (λ t. (b ∷ t) ++ bytes_of is) (sym (take-append-drop k bs))
      ∙ append_assoc (b ∷ take k bs) (drop k bs) (bytes_of is)
      ∙ ap (λ t. (b ∷ take k bs) ++ t) (sym (bytes_of-put_back (drop k bs) is));
  still = put_back-OnlyReceived (drop k bs) is h;
  falls = omega (arith, inputs_left-put_back (drop k bs) is, length-drop k bs);
}

pub length-bytes_of : (is : List Input) → length (bytes_of is) ≤ inputs_left is
length-bytes_of [] = omega arith
length-bytes_of (received bytes ∷ is) =
    omega (arith, length-append bytes (bytes_of is), length-bytes_of is)
length-bytes_of (failed e ∷ is) = omega arith

-- Bytes that are read are no longer left.
pub async_read-inputs_left :
    (k : ℕ) (is : List Input) (bytes : Text) (after : List Input)
    → async_read k is ≡ got bytes after
    → 1 ≤ length bytes
    → length bytes + inputs_left after ≤ inputs_left is
unfolding async_read
async_read-inputs_left k [] bytes after e h = ground arith
async_read-inputs_left k (failed x ∷ is) bytes after e h = absurd (cc)
async_read-inputs_left k (received bs ∷ is) bytes after e h =
    let b : take k bs ≡ bytes = cc in
    let a : put_back (drop k bs) is ≡ after = cc in
    let total = ap length (take-append-drop k bs) in
    rw (← b, ← a)
      (omega (arith, length-append (take k bs) (drop k bs), inputs_left-put_back (drop k bs) is))
