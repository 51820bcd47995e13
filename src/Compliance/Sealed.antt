-- ===== src/Compliance/Sealed.antt =====
-- What a binder of evidence cites, and what its envelope covers.
use flyto_warroom.Prelude.{
  ◌≡◌, ◌≢◌, refl, ap, String, Bool, true, false, Option, none, some, List, [], ◌∷◌, map, arith, All,
  select, Option-cases, inl, inr, eq_iff,
}
use Prim.Native.String.{◌++◌ as ◌++ₛ◌}
use flyto_warroom.Prelude.Dict.{Dict, lookup}
use flyto_warroom.Compliance.{Framework, ControlResult, FrameworkResult}
use flyto_warroom.Compliance.Evidence.{
  EvidenceItem, ControlEvidence, EvidenceBinder, framework_name, control_source_keys, present, cite,
  cite_controls, build_binder,
}

present-some :
    (o : Option String) (raw : String) → present o ≡ some raw → (o ≡ some raw) × (raw ≢ "")
present-some none raw h = absurd (cc h)
present-some (some r) raw h = (ground (arith, h), ground (arith, h, eq_iff r ""))

module _ {ℓ} {Time : Type ℓ} (sha256_hex : String → String) (rfc3339 : Time → String) where
  -- The envelope, from what the binder itself says.
  abbrev pub seal_items : String → List (EvidenceItem Time) → String
  seal_items envelope [] = envelope
  seal_items envelope (item ∷ items) = seal_items (envelope ++ₛ "|" ++ₛ item.hash) items

  abbrev pub seal_controls : String → List (ControlEvidence Time) → String
  seal_controls envelope [] = envelope
  seal_controls envelope (c ∷ cs) = seal_controls (seal_items envelope c.evidence) cs

  abbrev pub recompute : EvidenceBinder Time → String
  unfolding framework_name
  recompute b = sha256_hex (
      seal_controls
        (framework_name b.framework ++ₛ "|" ++ₛ rfc3339 b.generated_at ++ₛ "|" ++ₛ b.org_id)
        b.controls)

  cite_sealed :
      (keys : List String) (sources : Dict String) (now : Time) (envelope : String)
      → (cite sha256_hex rfc3339 keys sources now envelope).1
        ≡ seal_items envelope (cite sha256_hex rfc3339 keys sources now envelope).0
  unfolding cite
  cite_sealed [] sources now envelope = refl
  cite_sealed (key ∷ keys) sources now envelope =
      elim (Option-cases (present (lookup key sources))) [
        | inl e ↦ rw (e, cite) (cite_sealed keys sources now envelope)
        | inr (raw, e) ↦
            rw (e, cite) (cite_sealed keys sources now (envelope ++ₛ "|" ++ₛ sha256_hex raw))
      ]

  cite_controls_sealed :
      (cs : List ControlResult) (sources : Dict String) (now : Time) (envelope : String)
      → (cite_controls sha256_hex rfc3339 cs sources now envelope).1
        ≡ seal_controls envelope (cite_controls sha256_hex rfc3339 cs sources now envelope).0
  unfolding cite_controls
  cite_controls_sealed [] sources now envelope = refl
  cite_controls_sealed (c ∷ cs) sources now envelope = rw (
    cite_controls_sealed cs sources now
        (cite sha256_hex rfc3339 (control_source_keys c.control_id) sources now envelope).1,
    cite_sealed (control_source_keys c.control_id) sources now envelope,
  )

  -- The envelope is the hash of the framework, the time, the organisation and the hashes of the evidence that the
  -- binder itself shows, in its order.
  pub envelope_recomputed :
      (org_id org_name : String) (framework : Framework) (result : FrameworkResult)
      (sources : Dict String) (now : Time)
      → (build_binder sha256_hex rfc3339 org_id org_name framework result sources now).envelope_hash
        ≡ recompute (build_binder sha256_hex rfc3339 org_id org_name framework result sources now)
  unfolding build_binder recompute
  envelope_recomputed org_id org_name framework result sources now = ap sha256_hex (
      cite_controls_sealed result.controls sources now
        (framework_name framework ++ₛ "|" ++ₛ rfc3339 now ++ₛ "|" ++ₛ org_id))

  -- An item is a source as it was given, with its hash.
  abbrev pub IsVerbatim : Dict String → EvidenceItem Time → Type 0
  unfolding lookup
  IsVerbatim sources item =
      (raw : String) × ((lookup item.source sources ≡ some raw)
        × (raw ≢ "")
        × (item.hash ≡ sha256_hex raw))

  abbrev pub is_present : Option String → Bool
  is_present none = false
  is_present (some raw) = true

  -- What is cited for the keys is what they have.
  cite-IsVerbatim :
      (keys : List String) (sources : Dict String) (now : Time) (envelope : String)
      → All (IsVerbatim sources) (cite sha256_hex rfc3339 keys sources now envelope).0
        × (map (λ item. item.source) (cite sha256_hex rfc3339 keys sources now envelope).0
            ≡ select (λ key. is_present (present (lookup key sources))) keys)
  unfolding cite select
  cite-IsVerbatim [] sources now envelope = (tt, refl)
  cite-IsVerbatim (key ∷ keys) sources now envelope =
      elim (Option-cases (present (lookup key sources))) [
        | inl e ↦ rw (e, cite, select) (cite-IsVerbatim keys sources now envelope)
        | inr (raw, e) ↦
            let (items, sources_kept) =
              cite-IsVerbatim keys sources now (envelope ++ₛ "|" ++ₛ sha256_hex raw) in
            let (given, some_text) = present-some _ raw e in
            rw (e, cite, select)
              (((raw, (given, some_text, refl)), items), ap (λ ks. key ∷ ks) sources_kept)
      ]

  -- All that a control can have is cited for it, and nothing else.
  abbrev pub IsCited : Dict String → ControlEvidence Time → Type 0
  unfolding lookup select control_source_keys
  IsCited sources c =
      All (IsVerbatim sources) c.evidence
      × (map (λ item. item.source) c.evidence
          ≡ select (λ key. is_present (present (lookup key sources)))
              (control_source_keys c.result.control_id))

  cite_controls-IsCited :
      (cs : List ControlResult) (sources : Dict String) (now : Time) (envelope : String)
      → All (IsCited sources) (cite_controls sha256_hex rfc3339 cs sources now envelope).0
        × (map (λ c. c.result) (cite_controls sha256_hex rfc3339 cs sources now envelope).0 ≡ cs)
  unfolding cite_controls IsCited
  cite_controls-IsCited [] sources now envelope = (tt, refl)
  cite_controls-IsCited (c ∷ cs) sources now envelope =
      let here = cite-IsVerbatim (control_source_keys c.control_id) sources now envelope in
      let (rest, same) =
        cite_controls-IsCited cs sources now
          (cite sha256_hex rfc3339 (control_source_keys c.control_id) sources now envelope).1 in
      ((here, rest), ap (λ rs. c ∷ rs) same)

  -- The binder has the controls of the result, in order, each with the evidence of every source that it cites
  -- and that is there.
  pub binder-IsCited :
      (org_id org_name : String) (framework : Framework) (result : FrameworkResult)
      (sources : Dict String) (now : Time)
      → All
          (IsCited sources)
          (build_binder sha256_hex rfc3339 org_id org_name framework result sources now).controls
        × (map
              (λ c. c.result)
              (build_binder sha256_hex rfc3339 org_id org_name framework result sources
                now).controls
            ≡ result.controls)
  unfolding build_binder
  binder-IsCited org_id org_name framework result sources now =
      cite_controls-IsCited result.controls sources now
        (framework_name framework ++ₛ "|" ++ₛ rfc3339 now ++ₛ "|" ++ₛ org_id)
