-- ===== src/Server/AuthServer/Token.antt =====
-- `generateToken` of server/authserver/src/main.cpp: the hexadecimal digits of the random bytes.
use untitled.Base.{ℕ, zero, suc, ◌+◌, ◌-◌, ◌*◌, ◌<◌, ◌≡◌, refl, arith, List, [], ◌∷◌, length, All}
use untitled.Base.{get_or, shr, bit_and, Bool, true, ◌&&◌, ◌==◌, ==_iff, leb, if◌then◌else◌}
use untitled.Server.AuthServer.{hex, generate_token}

-- Two digits for each byte.
pub length-generate_token : (raw : List ℕ) → length (generate_token raw) ≡ 2 * length raw
unfolding generate_token
length-generate_token [] = refl
length-generate_token (b ∷ raw) = omega (arith, length-generate_token raw)

-- The value of a digit, and the bytes that the digits stand for.
abbrev pub digit_value : ℕ → ℕ
digit_value c = if leb 97 c then c - 87 else c - 48

abbrev pub decode : List ℕ → List ℕ
decode [] = []
decode (_ ∷ []) = []
decode (high ∷ low ∷ more) = (digit_value high * 16 + digit_value low) ∷ decode more

abbrev all_below : ℕ → (ℕ → Bool) → Bool
all_below zero f = true
all_below (suc n) f = f n && all_below n f

all_below-at : (n k : ℕ) (f : ℕ → Bool) → all_below n f ≡ true → k < n → f k ≡ true
all_below-at zero k f e h = absurd (omega arith)
all_below-at (suc n) k f e h = ground (arith, all_below-at n k f)

abbrev byte_decodes : ℕ → Bool
byte_decodes b =
    digit_value (get_or hex (shr b 4) 0) * 16 + digit_value (get_or hex (bit_and b 15) 0) == b

bytes_decode : all_below 256 byte_decodes ≡ true
bytes_decode = refl

-- The random bytes can be read back from the digits of the token.
pub decode-generate_token :
    (raw : List ℕ) → All (λ b. b < 256) raw → decode (generate_token raw) ≡ raw
unfolding generate_token
decode-generate_token [] v = refl
decode-generate_token (b ∷ raw) (v, vs) =
    let here = all_below-at 256 b byte_decodes bytes_decode v in
    let same : digit_value (get_or hex (shr b 4) 0) * 16 + digit_value (get_or hex (bit_and b 15) 0)
        ≡ b =
      (==_iff _ _).0 here in
    rw (same, decode-generate_token raw vs) refl
