-- ===== src/Auth/Tokens.antt =====
-- Tokens that are minted and verified.
use flyto_warroom.Prelude.{
  ℕ, ◌+◌, ◌<◌, ◌≡◌, ◌≢◌, refl, sym, ap, ◌∙◌, String, Bool, true, false, ◌||◌, Option, none, some,
  arith, ltb, if◌then◌else◌, eq_iff, Bool-cases, inl, inr,
}
use Prim.Native.Char.{Char}
use Prim.Native.String.{[], ◌∷◌, ◌++◌}
use mathlib.Core.Path.{subst}
use text.Mathlib.TextEquality.{Char-path}
use text.Mathlib.TextLemmas.{nil-append, cons-append, append_assoc}
use text.Mathlib.TextPositions.{eq_refl}
use flyto_warroom.Auth.{
  Claims, Manager, Codec, is_dot, Dotted, last, dot, prepend, split_dots, jwt_header, unix,
  claims_at, mint, unexpired, verify_parts, verify,
}

abbrev pub has_dot : String → Bool
has_dot [] = false
has_dot (c ∷ s) = is_dot c || has_dot s

-- What the encodings do for a token's header and claims: base64 for URLs has no dot, and decoding undoes encoding.
pub record IsCodec (codec : Codec) (claims : Claims) : Type 0 where
  pub signature_plain :
      (secret unsigned : String) → has_dot (codec.signature secret unsigned) ≡ false
  pub header_plain : has_dot (codec.encode_header jwt_header) ≡ false
  pub claims_plain : has_dot (codec.encode_claims claims) ≡ false
  pub header_back : codec.decode_header (codec.encode_header jwt_header) ≡ some jwt_header
  pub claims_back : codec.decode_claims (codec.encode_claims claims) ≡ some claims

split_dots-plain : (s : String) → has_dot s ≡ false → split_dots s ≡ last s
unfolding split_dots
split_dots-plain [] h = refl
split_dots-plain (c ∷ s) h = ground (arith, h, split_dots-plain s)

abbrev full_stop : Char
full_stop = "."

dotted : (t : String) → "." ++ t ≡ full_stop ∷ t
dotted t = cons-append full_stop [] t ∙ ap (λ u. full_stop ∷ u) (nil-append t)

split_dots-append :
    (s t : String) → has_dot s ≡ false → split_dots (s ++ ("." ++ t)) ≡ dot s (split_dots t)
unfolding split_dots
split_dots-append [] t h = ap split_dots (nil-append ("." ++ t) ∙ dotted t)
split_dots-append (c ∷ s) t h =
    ap split_dots (cons-append c s ("." ++ t)) ∙ ground (arith, h, split_dots-append s t)

module _ (codec : Codec) (m : Manager) (subject email display_name : String) (now : ℕ)
    (laws : IsCodec codec (claims_at m subject email display_name now)) where
  -- The parts of a minted token.
  minted :
      let header = codec.encode_header jwt_header in
      let claims = codec.encode_claims (claims_at m subject email display_name now) in
      split_dots (mint codec m subject email display_name now)
      ≡ dot header (dot claims (last (codec.signature m.secret (header ++ ("." ++ claims)))))
  unfolding mint
  minted =
      let header = codec.encode_header jwt_header in
      let claims = codec.encode_claims (claims_at m subject email display_name now) in
      let given = codec.signature m.secret (header ++ ("." ++ claims)) in
      ap split_dots (
        append_assoc header ("." ++ claims) ("." ++ given)
        ∙ ap (λ u. header ++ u) (append_assoc "." claims ("." ++ given)))
      ∙ split_dots-append header (claims ++ ("." ++ given)) (laws.header_plain)
      ∙ ap (dot header) (split_dots-append claims given laws.claims_plain)
      ∙ ap (λ d. dot header (dot claims d))
          (split_dots-plain given (laws.signature_plain m.secret (header ++ ("." ++ claims))))

  claims_live :
      (later : ℕ)
      → subject ≢ ""
      → unexpired codec later (some (claims_at m subject email display_name now)) ≡ (
          if ltb (unix later) (unix (now + m.ttl))
          then some (claims_at m subject email display_name now)
          else none)
  unfolding claims_at
  claims_live later h = ground (arith, h, eq_iff subject "")

  -- A token that is minted for a user says who they are until it expires, and is refused from then on.
  pub verify-mint :
      (later : ℕ)
      → subject ≢ ""
      → verify codec m (mint codec m subject email display_name now) later ≡ (
          if ltb (unix later) (unix (now + m.ttl))
          then some (claims_at m subject email display_name now)
          else none)
  unfolding verify verify_parts
  verify-mint later h =
      let claims = claims_at m subject email display_name now in
      rw
        (
          minted,
          laws.header_back,
          laws.claims_back,
          eq_refl (
              codec.signature m.secret
                (codec.encode_header jwt_header ++ ("." ++ codec.encode_claims claims))),
        )
        (claims_live later h)

abbrev join : Dotted → String
join (last s) = s
join (dot s rest) = s ++ ("." ++ join rest)

join-prepend : (c : Char) (d : Dotted) → join (prepend c d) ≡ c ∷ join d
join-prepend c (last s) = refl
join-prepend c (dot s rest) = cons-append c s ("." ++ join rest)

char_dot : (c : Char) → is_dot c ≡ true → c ≡ full_stop
char_dot c h = Char-path c full_stop (ground (arith, h))

split_dots-dot :
    (c : Char) (s : String) → is_dot c ≡ true → split_dots (c ∷ s) ≡ dot [] (split_dots s)
unfolding split_dots
split_dots-dot c s h = ground (arith, h)

split_dots-other :
    (c : Char) (s : String) → is_dot c ≡ false → split_dots (c ∷ s) ≡ prepend c (split_dots s)
unfolding split_dots
split_dots-other c s h = ground (arith, h)

join-split_dots : (s : String) → join (split_dots s) ≡ s
unfolding split_dots
join-split_dots [] = refl
join-split_dots (c ∷ s) = elim (Bool-cases (is_dot c)) [
  | inl e ↦
      ap join (split_dots-dot c s e)
      ∙ nil-append ("." ++ join (split_dots s))
      ∙ dotted (join (split_dots s))
      ∙ ap (λ u. full_stop ∷ u) (join-split_dots s)
      ∙ ap (λ d. d ∷ s) (sym (char_dot c e))
  | inr e ↦
      ap join (split_dots-other c s e)
      ∙ join-prepend c (split_dots s)
      ∙ ap (λ u. c ∷ u) (join-split_dots s)
]

module _ (codec : Codec) where
  -- What a verified token is.
  abbrev pub IsSigned : Manager → (token : String) → ℕ → Claims → Type 0
  IsSigned m token later c =
      (unsigned : String) × ((token ≡ unsigned ++ ("." ++ codec.signature m.secret unsigned))
        × ((unix later < c.expires_at) × (c.subject ≢ "") × (c.issuer ≡ "flyto-warroom-ce")))

  claims_signed :
      (later : ℕ) (o : Option Claims) (c : Claims)
      → unexpired codec later o ≡ some c
      → (unix later < c.expires_at) × (c.subject ≢ "") × (c.issuer ≡ "flyto-warroom-ce")
  claims_signed later none c h = absurd (cc h)
  claims_signed later (some x) c h =
      ground (arith, h, eq_iff x.subject "", eq_iff x.issuer "flyto-warroom-ce")

  given_signed :
      (m : Manager) (header claims given : String) (later : ℕ) (c : Claims)
      → verify_parts codec m (dot header (dot claims (last given))) later ≡ some c
      → (given ≡ codec.signature m.secret (header ++ ("." ++ claims)))
        × ((unix later < c.expires_at) × (c.subject ≢ "") × (c.issuer ≡ "flyto-warroom-ce"))
  unfolding verify_parts
  given_signed m header claims given later c h =
      let live = claims_signed later (codec.decode_claims claims) c in
      ground (arith, h, live, eq_iff given (codec.signature m.secret (header ++ ("." ++ claims))))

  parts-IsSigned :
      (m : Manager) (d : Dotted) (later : ℕ) (c : Claims)
      → verify_parts codec m d later ≡ some c
      → IsSigned m (join d) later c
  unfolding verify_parts
  parts-IsSigned m (last s) later c h = absurd (cc h)
  parts-IsSigned m (dot s (last t)) later c h = absurd (cc h)
  parts-IsSigned m (dot s (dot t (dot u rest))) later c h = absurd (cc h)
  parts-IsSigned m (dot header (dot claims (last given))) later c h =
      let signed = given_signed m header claims given later c h in
      (
        header ++ ("." ++ claims),
        (
          sym (
                append_assoc header ("." ++ claims) ("." ++ given)
                ∙ ap (λ u. header ++ u) (append_assoc "." claims ("." ++ given)))
              ∙ ap (λ g. (header ++ ("." ++ claims)) ++ ("." ++ g)) signed.0,
          signed.1,
        ),
      )

  -- A token that is verified carries the signature of the rest of it, and is not expired.
  pub verify-IsSigned :
      (m : Manager) (token : String) (later : ℕ) (c : Claims)
      → verify codec m token later ≡ some c
      → IsSigned m token later c
  unfolding verify
  verify-IsSigned m token later c h =
      subst (λ t. IsSigned m t later c) (join-split_dots token)
        (parts-IsSigned m (split_dots token) later c h)
