-- ===== src/Proxy/Uuid.antt =====
-- generateUUID of internal/proxy/service.go: 16 random bytes with the version and variant bits.
use Prim.Native.Char.{Char}
use Prim.Native.String
use x_ui_site.Prelude.{
  ℕ, zero, suc, ◌+◌, ◌/◌, ◌%◌, ◌≡◌, refl, String, List, [], ◌∷◌, ◌++◌, take, replicate,
}

abbrev hex_digits : List Char
hex_digits =
    "0" ∷ "1" ∷ "2" ∷ "3" ∷ "4" ∷ "5" ∷ "6" ∷ "7" ∷ "8" ∷ "9" ∷ "a" ∷ "b" ∷ "c" ∷ "d" ∷ "e" ∷ "f"
    ∷ []

abbrev char_at : ℕ → List Char → Char
char_at n [] = "0"
char_at zero (c ∷ cs) = c
char_at (suc n) (c ∷ cs) = char_at n cs

-- hex.EncodeToString
hex_of : List ℕ → String
hex_of [] = ""
hex_of (b ∷ bs) =
    String.◌∷◌ (char_at (b / 16) hex_digits) (String.◌∷◌ (char_at (b % 16) hex_digits) (hex_of bs))

abbrev drop : ℕ → List ℕ → List ℕ
drop zero bs = bs
drop (suc n) [] = []
drop (suc n) (b ∷ bs) = drop n bs

abbrev slice : ℕ → ℕ → List ℕ → List ℕ
slice from count bs = take count (drop from bs)

abbrev set_byte : ℕ → (ℕ → ℕ) → List ℕ → List ℕ
set_byte n f [] = []
set_byte zero f (b ∷ bs) = f b ∷ bs
set_byte (suc n) f (b ∷ bs) = b ∷ set_byte n f bs

-- What rand.Read leaves in the 16 bytes: those it read, and zeros.
abbrev filled : List ℕ → List ℕ
filled bs = take 16 (bs ++ replicate 16 0)

-- (b & 0x0f) | 0x40 at 6, (b & 0x3f) | 0x80 at 8
abbrev marked : List ℕ → List ℕ
marked bs = set_byte 8 (λ b. b % 64 + 128) (set_byte 6 (λ b. b % 16 + 64) bs)

abbrev dashed : List ℕ → String
dashed bs = String.◌++◌ (hex_of (slice 0 4 bs)) (
    String.◌++◌ "-" (
      String.◌++◌ (hex_of (slice 4 2 bs)) (
        String.◌++◌ "-" (
          String.◌++◌ (hex_of (slice 6 2 bs)) (
            String.◌++◌ "-"
              (String.◌++◌ (hex_of (slice 8 2 bs)) (String.◌++◌ "-" (hex_of (slice 10 6 bs)))))))))

unfoldable pub generate_uuid : List ℕ → String
unfolding hex_of
generate_uuid bs = dashed (marked (filled bs))

generate_uuid_test :
    generate_uuid (255 ∷ 1 ∷ 2 ∷ 3 ∷ 4 ∷ 5 ∷ 6 ∷ 7 ∷ 8 ∷ [])
    ≡ "ff010203-0405-4607-8800-000000000000"
unfolding generate_uuid
generate_uuid_test = refl
