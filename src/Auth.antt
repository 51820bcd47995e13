-- ===== src/Auth.antt =====
-- internal/ceauth/auth.go: the passwords and the tokens of the Community Edition. HMAC-SHA256 in base64, the JSON
-- encodings, bcrypt and the classes of characters are parameters. Instants are in nanoseconds.
pub mod Tokens
pub mod Passwords
mod Tests
use flyto_warroom.Prelude.{
  ℕ, ◌+◌, ◌*◌, ◌/◌, ◌==◌, String, Bool, true, false, not, ◌&&◌, ◌||◌, Option, none, some, List, ltb,
  leb, if◌then◌else◌, str_eq,
}
use Prim.Native.Char.{Char, code}
use Prim.Native.String.{[], ◌∷◌, ◌++◌}

pub record Claims : Type 0 where
  pub subject : String
  pub email : String
  pub display_name : String
  pub issuer : String
  pub issued_at : ℕ
  pub expires_at : ℕ

pub record Header : Type 0 where
  pub alg : String
  pub typ : String

pub record Manager : Type 0 where
  pub secret : String
  pub ttl : ℕ

-- What the tokens are made with: `signature` is `hmac` and base64; the other four are JSON and base64.
pub record Codec : Type 0 where
  pub signature : (secret unsigned : String) → String
  pub encode_header : Header → String
  pub encode_claims : Claims → String
  pub decode_header : String → Option Header
  pub decode_claims : String → Option Claims

abbrev pub second : ℕ
second = 1_000_000_000

-- The bytes of a character in UTF-8.
abbrev pub char_bytes : Char → ℕ
char_bytes c =
    let n = code c in
    if ltb n 128 then 1 else if ltb n 2048 then 2 else if ltb n 65536 then 3 else 4

-- `len` of a string
unfoldable pub byte_length : String → ℕ
byte_length [] = 0
byte_length (c ∷ s) = char_bytes c + byte_length s

-- A duration that is not positive is the default.
unfoldable pub new_manager : (secret : String) → (ttl : ℕ) → Option Manager
unfolding byte_length
new_manager secret ttl =
    if ltb (byte_length secret) 32
    then none
    else some (record { secret = secret; ttl = if ttl == 0 then 12 * (3600 * second) else ttl })

abbrev pub is_dot : Char → Bool
is_dot c = code c == 46

-- The parts of a token: the first, and those after it.
pub data Dotted : Type 0 where
  last : String → Dotted
  dot : String → Dotted → Dotted

abbrev pub prepend : Char → Dotted → Dotted
prepend c (last s) = last (c ∷ s)
prepend c (dot s rest) = dot (c ∷ s) rest

-- `strings.Split(token, ".")`
unfoldable pub split_dots : String → Dotted
split_dots [] = last []
split_dots (c ∷ s) = let rest = split_dots s in if is_dot c then dot [] rest else prepend c rest

abbrev pub jwt_header : Header
jwt_header = record { alg = "HS256"; typ = "JWT" }

abbrev pub unix : ℕ → ℕ
unix t = t / second

unfoldable pub claims_at : Manager → (subject email display_name : String) → (now : ℕ) → Claims
claims_at m subject email display_name now = record {
  subject = subject;
  email = email;
  display_name = display_name;
  issuer = "flyto-warroom-ce";
  issued_at = unix now;
  expires_at = unix (now + m.ttl);
}

module _ (codec : Codec) where
  unfoldable pub mint : Manager → (subject email display_name : String) → (now : ℕ) → String
  unfolding claims_at
  mint m subject email display_name now =
      let unsigned =
        codec.encode_header jwt_header
        ++ ("." ++ codec.encode_claims (claims_at m subject email display_name now)) in
      unsigned ++ ("." ++ codec.signature m.secret unsigned)

  abbrev pub is_jwt : Option Header → Bool
  is_jwt none = false
  is_jwt (some h) = str_eq h.alg "HS256" && str_eq h.typ "JWT"

  abbrev pub unexpired : (now : ℕ) → Option Claims → Option Claims
  unexpired now none = none
  unexpired now (some c) =
      if not (str_eq c.issuer "flyto-warroom-ce")
        || (str_eq c.subject "" || leb c.expires_at (unix now))
      then none
      else some c

  unfoldable pub verify_parts : Manager → Dotted → (now : ℕ) → Option Claims
  verify_parts m (dot header (dot claims (last given))) now =
      if not (str_eq given (codec.signature m.secret (header ++ ("." ++ claims))))
      then none
      else if not (is_jwt (codec.decode_header header))
      then none
      else unexpired now (codec.decode_claims claims)
  verify_parts m _ now = none

  unfoldable pub verify : Manager → (token : String) → (now : ℕ) → Option Claims
  unfolding split_dots verify_parts
  verify m token now = verify_parts m (split_dots token) now

-- `unicode.IsUpper`, `IsLower`, `IsDigit`, and `IsPunct` or `IsSymbol`.
pub record Classes : Type 0 where
  pub upper : Char → Bool
  pub lower : Char → Bool
  pub digit : Char → Bool
  pub symbol : Char → Bool

-- The four flags of the loop of `ValidatePassword`.
pub record Seen : Type 0 where
  pub upper : Bool
  pub lower : Bool
  pub digit : Bool
  pub symbol : Bool

module _ (classes : Classes) where
  abbrev pub see : Char → Seen → Seen
  see c seen =
      if classes.upper c
      then record seen { upper = true }
      else if classes.lower c
      then record seen { lower = true }
      else if classes.digit c
      then record seen { digit = true }
      else if classes.symbol c
      then record seen { symbol = true }
      else seen

  unfoldable pub scan_password : String → Seen → Seen
  scan_password [] seen = seen
  scan_password (c ∷ s) seen = scan_password s (see c seen)

  unfoldable pub validate_password : String → Bool
  unfolding byte_length scan_password
  validate_password password =
      let seen =
        scan_password password
          (record { upper = false; lower = false; digit = false; symbol = false }) in
      not (ltb (byte_length password) 12)
      && not (not seen.upper || (not seen.lower || (not seen.digit || not seen.symbol)))

  abbrev pub prefixed : Option String → Option String
  prefixed none = none
  prefixed (some h) = some ("bcrypt:" ++ h)

  -- With bcrypt's generator, that refuses a password of more than 72 bytes.
  unfoldable pub hash_password : (generate : String → Option String) → String → Option String
  unfolding validate_password
  hash_password generate password =
      if validate_password password then prefixed (generate password) else none

-- `strings.HasPrefix` and `strings.TrimPrefix`
unfoldable pub drop_prefix : (start text : String) → Option String
drop_prefix [] text = some text
drop_prefix (c ∷ start) [] = none
drop_prefix (c ∷ start) (d ∷ text) =
    let rest = drop_prefix start text in if code c == code d then rest else none

abbrev pub compared : (String → Bool) → Option String → Bool
compared matches none = false
compared matches (some h) = matches h

-- With bcrypt's comparison of a hash and a password.
unfoldable pub check_password : (compare : String → String → Bool) → (hash password : String) → Bool
unfolding drop_prefix
check_password compare hash password =
    compared (λ h. compare h password) (drop_prefix "bcrypt:" hash)
