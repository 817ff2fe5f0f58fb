-- ===== src/Client/Pubkey.antt =====
-- `normalizePubkey` of packages/cli/src/groupMetadata.ts.
pub mod Normal
use Prim.Native.Char.{Char, char, code}
use Prim.Native.String.{[], ◌∷◌, count}
use cordn.Prelude.{String, Bool, true, ◌&&◌, ◌||◌, if◌then◌else◌, leb, ◌==◌, string_eq, nat_eq}
use cordn.Result.{Result, ok, err, invalid_pubkey}

-- `[0-9a-fA-F]`
abbrev is_hex_digit : Char → Bool
is_hex_digit c =
    (leb 48 (code c) && leb (code c) 57)
    || (leb 97 (code c) && leb (code c) 102)
    || (leb 65 (code c) && leb (code c) 70)

unfoldable pub is_hex : String → Bool
is_hex [] = true
is_hex (c ∷ s) = is_hex_digit c && is_hex s

abbrev lower_hex_digit : Char → Char
lower_hex_digit c =
    if code c == 65
    then char 97 tt
    else if code c == 66
    then char 98 tt
    else if code c == 67
    then char 99 tt
    else if code c == 68
    then char 100 tt
    else if code c == 69
    then char 101 tt
    else if code c == 70
    then char 102 tt
    else c

-- `toLowerCase`, on hexadecimal digits
unfoldable pub lower_hex : String → String
lower_hex [] = []
lower_hex (c ∷ s) = lower_hex_digit c ∷ lower_hex s

-- A text that passes the test has no white space to trim.
unfoldable pub normalize_pubkey : String → Result String
normalize_pubkey pubkey =
    if (count pubkey == 64) && is_hex pubkey then ok (lower_hex pubkey) else err invalid_pubkey
