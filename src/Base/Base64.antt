-- ===== src/Base/Base64.antt =====
-- The standard encoding of encoding/base64, with padding, and the decoding by RFC 4648.
use Prim.Native.Nat.{ℕ, ◌+◌, ◌-◌, ◌*◌, ◌/◌, ◌%◌, ◌<◌}
use mathlib.Core.Bool.{false, ◌&&◌}
use mathlib.Core.List.{List, [], ◌∷◌}
use mathlib.Core.Option.{Option, none, some}
use mathlib.Core.Path.{◌≡◌, refl, ap, ap₂}
use native.Mathlib.Omega.{arith}
use proton_carddav_sync.Base.Tests.{◌==◌, nat_eq, ltb, leb, if◌then◌else◌}

-- `base64.StdEncoding`: the character of six bits.
unfoldable digit : ℕ → ℕ
digit n =
    if ltb n 26
    then n + 65
    else if ltb n 52
    then n + 71
    else if ltb n 62
    then n - 52 + 48
    else if n == 62
    then 43
    else 47

abbrev pad : ℕ
pad = 61

unfoldable pub encode_std : List ℕ → List ℕ
unfolding digit
encode_std [] = []
encode_std (a ∷ []) = digit (a / 4) ∷ digit (a % 4 * 16) ∷ pad ∷ pad ∷ []
encode_std (a ∷ b ∷ []) =
    digit (a / 4) ∷ digit (a % 4 * 16 + b / 16) ∷ digit (b % 16 * 4) ∷ pad ∷ []
encode_std (a ∷ b ∷ c ∷ rest) =
    digit (a / 4)
    ∷ digit (a % 4 * 16 + b / 16)
    ∷ digit (b % 16 * 4 + c / 64)
    ∷ digit (c % 64)
    ∷ encode_std rest

unfoldable bits : ℕ → Option ℕ
bits c =
    if leb 65 c && leb c 90
    then some (c - 65)
    else if leb 97 c && leb c 122
    then some (c - 71)
    else if leb 48 c && leb c 57
    then some (c - 48 + 52)
    else if c == 43
    then some 62
    else if c == 47
    then some 63
    else none

-- The bytes of four characters: three, or one or two where the last ones are padding.
abbrev one : Option ℕ → Option ℕ → Option (List ℕ)
one (some w) (some x) = some ((w * 4 + x / 16) ∷ [])
one _ _ = none

abbrev two : Option ℕ → Option ℕ → Option ℕ → Option (List ℕ)
two (some w) (some x) (some y) = some ((w * 4 + x / 16) ∷ (x % 16 * 16 + y / 4) ∷ [])
two _ _ _ = none

abbrev three : Option ℕ → Option ℕ → Option ℕ → Option ℕ → Option (List ℕ) → Option (List ℕ)
three (some w) (some x) (some y) (some z) (some rest) =
    some ((w * 4 + x / 16) ∷ (x % 16 * 16 + y / 4) ∷ (y % 4 * 64 + z) ∷ rest)
three _ _ _ _ _ = none

abbrev at_end : List ℕ → Option (List ℕ) → Option (List ℕ)
at_end [] r = r
at_end (c ∷ s) r = none

unfoldable pub decode_std : List ℕ → Option (List ℕ)
unfolding bits
decode_std [] = some []
decode_std (w ∷ x ∷ y ∷ z ∷ rest) =
    let more = decode_std rest in
    if z == pad
    then at_end rest (if y == pad then one (bits w) (bits x) else two (bits w) (bits x) (bits y))
    else three (bits w) (bits x) (bits y) (bits z) more
decode_std _ = none

man : encode_std (77 ∷ 97 ∷ []) ≡ 84 ∷ 87 ∷ 69 ∷ 61 ∷ []
unfolding encode_std digit nat_eq
man = refl

bits-digit : (n : ℕ) → n < 64 → bits (digit n) ≡ some n
unfolding bits digit
bits-digit n small = ground arith

digit-not_pad : (n : ℕ) → n < 64 → (digit n == pad) ≡ false
unfolding digit
digit-not_pad n small = ground arith

-- Every element is a byte.
pub data AreBytes : List ℕ → Type 0 where
  none_left : AreBytes []
  byte : {b : ℕ} {bs : List ℕ} → b < 256 → AreBytes bs → AreBytes (b ∷ bs)

first_byte : (a b : ℕ) → b < 256 → a / 4 * 4 + (a % 4 * 16 + b / 16) / 16 ≡ a
first_byte a b q = omega arith

second_byte :
    (a b c : ℕ)
    → b < 256
    → c < 256
    → (a % 4 * 16 + b / 16) % 16 * 16 + (b % 16 * 4 + c / 64) / 4 ≡ b
second_byte a b c q r = omega arith

third_byte : (b c : ℕ) → c < 256 → (b % 16 * 4 + c / 64) % 4 * 64 + c % 64 ≡ c
third_byte b c r = omega arith

pub decode_std-encode_std :
    (bytes : List ℕ) → AreBytes bytes → decode_std (encode_std bytes) ≡ some bytes
unfolding decode_std encode_std nat_eq
decode_std-encode_std [] h = refl
decode_std-encode_std (a ∷ []) (byte p h) =
    rw (bits-digit (a / 4) (omega arith), bits-digit (a % 4 * 16) (omega arith))
      (ap (λ x. some (x ∷ [])) (omega arith))
decode_std-encode_std (a ∷ b ∷ []) (byte p (byte q h)) =
    rw
      (
        digit-not_pad (b % 16 * 4) (omega arith),
        bits-digit (a / 4) (omega arith),
        bits-digit (a % 4 * 16 + b / 16) (omega arith),
        bits-digit (b % 16 * 4) (omega arith),
      )
      (ap₂ (λ x y. some (x ∷ y ∷ [])) (first_byte a b q) (omega arith))
decode_std-encode_std (a ∷ b ∷ c ∷ rest) (byte p (byte q (byte r h))) =
    rw
      (
        digit-not_pad (c % 64) (omega arith),
        bits-digit (a / 4) (omega arith),
        bits-digit (a % 4 * 16 + b / 16) (omega arith),
        bits-digit (b % 16 * 4 + c / 64) (omega arith),
        bits-digit (c % 64) (omega arith),
        decode_std-encode_std rest h,
      )
      (ap₂ (λ x l. some (x ∷ l)) (first_byte a b q)
        (ap₂ (λ y z. y ∷ z ∷ rest) (second_byte a b c q r) (third_byte b c r)))
