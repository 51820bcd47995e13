-- ===== src/Auth/Passwords.antt =====
-- Which passwords are accepted, and how their hashes are checked.
use flyto_warroom.Prelude.{
  ◌≤◌, ◌≡◌, ◌↔◌, refl, sym, ap, String, Bool, true, false, ◌||◌, Option, none, some, arith,
  if◌then◌else◌,
}
use Prim.Native.Char.{Char}
use Prim.Native.String.{[], ◌∷◌, ◌++◌}
use mathlib.Core.Option.{some-injective}
use text.Mathlib.TextLemmas.{nil-append, cons-append}
use flyto_warroom.Auth.{
  byte_length, Classes, Seen, see, scan_password, validate_password, hash_password, drop_prefix,
  check_password, prefixed,
}

-- Some character of a class.
abbrev pub has : (Char → Bool) → String → Bool
has p [] = false
has p (c ∷ s) = p c || has p s

-- No character is of two of the classes, as in Unicode.
pub record IsDisjoint (classes : Classes) : Type 0 where
  pub upper_lower : (c : Char) → classes.upper c ≡ true → classes.lower c ≡ false
  pub upper_digit : (c : Char) → classes.upper c ≡ true → classes.digit c ≡ false
  pub upper_symbol : (c : Char) → classes.upper c ≡ true → classes.symbol c ≡ false
  pub lower_digit : (c : Char) → classes.lower c ≡ true → classes.digit c ≡ false
  pub lower_symbol : (c : Char) → classes.lower c ≡ true → classes.symbol c ≡ false
  pub digit_symbol : (c : Char) → classes.digit c ≡ true → classes.symbol c ≡ false

module _ (classes : Classes) (disjoint : IsDisjoint classes) where
  IsScanned : String → Seen → Seen → Type 0
  IsScanned s seen after =
      (after.upper ≡ (seen.upper || has classes.upper s))
      × (after.lower ≡ (seen.lower || has classes.lower s))
      × (after.digit ≡ (seen.digit || has classes.digit s))
      × (after.symbol ≡ (seen.symbol || has classes.symbol s))

  see-seen :
      (c : Char) (seen : Seen)
      → see classes c seen ≡ record {
        upper = seen.upper || classes.upper c;
        lower = seen.lower || classes.lower c;
        digit = seen.digit || classes.digit c;
        symbol = seen.symbol || classes.symbol c;
      }
  see-seen c seen = ground (
    arith,
    disjoint.upper_lower c,
    disjoint.upper_digit c,
    disjoint.upper_symbol c,
    disjoint.lower_digit c,
    disjoint.lower_symbol c,
    disjoint.digit_symbol c,
  )

  scanned : (s : String) (seen : Seen) → IsScanned s seen (scan_password classes s seen)
  unfolding scan_password IsScanned
  scanned [] seen = ground arith
  scanned (c ∷ s) seen =
      let (u, l, d, y) = scanned s (see classes c seen) in
      ground (arith, u, l, d, y, see-seen c seen)

  -- For classes of which no character is in two, a password is accepted just where it has twelve bytes in UTF-8
  -- (which may be fewer characters) and a character of each class.
  pub accepted_iff :
      (password : String)
      → (validate_password classes password ≡ true) ↔ (
          (12 ≤ byte_length password)
          × (has classes.upper password ≡ true)
          × (has classes.lower password ≡ true)
          × (has classes.digit password ≡ true)
          × (has classes.symbol password ≡ true))
  unfolding validate_password IsScanned
  accepted_iff password =
      let (u, l, d, y) =
        scanned password (record { upper = false; lower = false; digit = false; symbol = false }) in
      ground (arith, u, l, d, y)

drop_prefix-append : (start text : String) → drop_prefix start (start ++ text) ≡ some text
unfolding drop_prefix
drop_prefix-append [] text = ap some (nil-append text)
drop_prefix-append (c ∷ start) text =
    rw (cons-append c start text) (ground (arith, drop_prefix-append start text))

stored-hash :
    (classes : Classes) (v : Bool) (o : Option String) (stored : String)
    → (if v then prefixed classes o else none) ≡ some stored
    → (hash : String) × ((o ≡ some hash) × (stored ≡ "bcrypt:" ++ hash))
stored-hash classes false o stored h = absurd (cc h)
stored-hash classes true none stored h = absurd (cc h)
stored-hash classes true (some hash) stored h = (hash, (refl, sym (some-injective _ _ h)))

module _ (classes : Classes) (generate : String → Option String)
    (compare : String → String → Bool) where
  -- The hash of a password that is stored accepts it, where bcrypt's does.
  pub check-hash :
      (compares : (password hash : String)
        → generate password ≡ some hash
        → compare hash password ≡ true)
      (password stored : String)
      → hash_password classes generate password ≡ some stored
      → check_password compare stored password ≡ true
  unfolding hash_password check_password
  check-hash compares password stored h =
      let (hash, (e, stored_as)) =
        stored-hash classes (validate_password classes password) (generate password) stored h in
      rw (stored_as, drop_prefix-append "bcrypt:" hash) (compares password hash e)
