-- ===== src/Auth/Tests.antt =====
-- A user who registers, signs in and comes back.
use flyto_warroom.Prelude.{
  ◌≡◌, ◌≤◌, ◌↔◌, ◌+◌, ◌*◌, refl, String, Bool, true, Option, none, some, arith, ltb, leb, str_eq,
  ◌&&◌, eq_iff, if◌then◌else◌,
}
use Prim.Native.Char.{code}
use flyto_warroom.Auth.{
  Claims, Manager, Codec, Classes, second, unix, claims_at, mint, verify, verify_parts, split_dots,
  jwt_header, byte_length, validate_password, scan_password, hash_password, check_password,
}
use flyto_warroom.Auth.Tokens.{IsSigned, verify-mint, verify-IsSigned}
use flyto_warroom.Auth.Passwords.{IsDisjoint, accepted_iff, check-hash, has}

abbrev manager : Manager
manager = record { secret = "0123456789abcdef0123456789abcdef"; ttl = 60 * second }

abbrev ann : Claims
ann = record {
  subject = "usr_1";
  email = "ann@example.com";
  display_name = "Ann";
  issuer = "flyto-warroom-ce";
  issued_at = 5;
  expires_at = 65;
}

-- Encodings that know one text only.
abbrev tiny : Codec
tiny = record {
  signature = λ secret unsigned. "s";
  encode_header = λ h. "h";
  encode_claims = λ c. "c";
  decode_header = λ text. some jwt_header;
  decode_claims = λ text. some ann;
}

verify-IsSigned_example : IsSigned tiny manager "h.c.s" (7 * second) ann
unfolding verify verify_parts split_dots
verify-IsSigned_example = verify-IsSigned tiny manager "h.c.s" (7 * second) ann refl

verify-mint_example :
    verify tiny manager
      (mint tiny manager "usr_1" "ann@example.com" "Ann" (5 * second))
      (64 * second)
    ≡ (if ltb (unix (64 * second)) (unix (5 * second + manager.ttl))
        then some (claims_at manager "usr_1" "ann@example.com" "Ann" (5 * second))
        else none)
unfolding claims_at
verify-mint_example =
    verify-mint tiny manager "usr_1" "ann@example.com" "Ann" (5 * second)
      (record {
        signature_plain = λ secret unsigned. refl;
        header_plain = refl;
        claims_plain = refl;
        header_back = refl;
        claims_back = refl;
      })
      (64 * second) (ground (arith, eq_iff "usr_1" ""))

abbrev ascii : Classes
ascii = record {
  upper = λ c. leb 65 (code c) && leb (code c) 90;
  lower = λ c. leb 97 (code c) && leb (code c) 122;
  digit = λ c. leb 48 (code c) && leb (code c) 57;
  symbol = λ c. leb 33 (code c) && leb (code c) 47;
}

ascii-IsDisjoint : IsDisjoint ascii
ascii-IsDisjoint = record {
  upper_lower = λ c h. ground (arith, h);
  upper_digit = λ c h. ground (arith, h);
  upper_symbol = λ c h. ground (arith, h);
  lower_digit = λ c h. ground (arith, h);
  lower_symbol = λ c h. ground (arith, h);
  digit_symbol = λ c h. ground (arith, h);
}

accepted_iff_example : (validate_password ascii "Correct-Horse1" ≡ true) ↔ (
    (12 ≤ byte_length "Correct-Horse1")
    × (has ascii.upper "Correct-Horse1" ≡ true)
    × (has ascii.lower "Correct-Horse1" ≡ true)
    × (has ascii.digit "Correct-Horse1" ≡ true)
    × (has ascii.symbol "Correct-Horse1" ≡ true))
accepted_iff_example = accepted_iff ascii ascii-IsDisjoint "Correct-Horse1"

-- A hash that is its password.
abbrev as_hash : String → Option String
as_hash password = some password

abbrev agree : String → String → Bool
agree hash password = str_eq hash password

check-hash_holds : check_password agree "bcrypt:Correct-Horse1" "Correct-Horse1" ≡ true
unfolding hash_password validate_password byte_length scan_password
check-hash_holds =
    check-hash ascii as_hash agree (λ p h e. ground (arith, e, eq_iff h p)) "Correct-Horse1"
      "bcrypt:Correct-Horse1" refl

-- Eleven characters of which one takes two bytes.
eleven_characters : validate_password ascii "Correct-H1é" ≡ true
unfolding validate_password byte_length scan_password
eleven_characters = refl
