-- ===== src/Mime/Parts/Fuel.antt =====
-- The walk over the parts of a message ends by itself.
use tmpmail_fyi.Common.{
  if◌then◌else◌, Bool-cases, length, All, Bytes, codes, ℕ, zero, suc, ◌<◌, ◌≡◌, refl, inl, inr,
  List, [], ◌∷◌, arith,
}
use tmpmail_fyi.Mime.Parts.{
  Part, MimeLibrary, MimeParts, keep_part, walk_all, media_of, is_multipart, parts_of,
  walk_mime_parts,
}

-- The parts of a multipart body are shorter than it: the boundaries are between them.
abbrev pub ShorterParts : MimeLibrary → Type 0
ShorterParts lib =
    (body boundary : Bytes) → All (λ p. length p.body < length body) (lib.multipart body boundary)

module _ (lib : MimeLibrary) (shorter : ShorterParts lib) where
  walk_all-same :
      (f g : Part → MimeParts → MimeParts) (bound : ℕ) (rest : List Part) (parts : MimeParts)
      → ((p : Part) (q : MimeParts) → length p.body < bound → f p q ≡ g p q)
      → All (λ p. length p.body < bound) rest
      → walk_all lib f rest parts ≡ walk_all lib g rest parts
  unfolding walk_all
  walk_all-same f g bound [] parts same h = refl
  walk_all-same f g bound (p ∷ rest) parts same (k, h) =
      rw (same p parts k) (walk_all-same f g bound rest (g p parts) same h)

  walk-fuel :
      (n m : ℕ) (part : Part) (parts : MimeParts)
      → length part.body < n
      → length part.body < m
      → walk_mime_parts lib n part parts ≡ walk_mime_parts lib m part parts
  unfolding walk_mime_parts
  walk-fuel zero m part parts h k = absurd (omega arith)
  walk-fuel (suc n) zero part parts h k = absurd (omega arith)
  walk-fuel (suc n) (suc m) part parts h k = elim (Bool-cases (is_multipart lib part)) [
    | inr e ↦ rw (e, walk_mime_parts) refl
    | inl e ↦
        rw (e, walk_mime_parts)
          (walk_all-same (walk_mime_parts lib n) (walk_mime_parts lib m) (length part.body)
            (parts_of lib part) parts (λ p q l. walk-fuel n m p q (omega arith) (omega arith))
            (shorter part.body ((media_of lib part).params (codes "boundary"))))
  ]

  -- The walk with the fuel that a part needs.
  abbrev pub walk : Part → MimeParts → MimeParts
  walk part parts = walk_mime_parts lib (suc (length part.body)) part parts

  -- With parts shorter than what they are part of, the fuel is enough: the walk obeys the recursion of
  -- walkMIMEParts, which has no fuel, at every part.
  pub walk_lem :
      (part : Part) (parts : MimeParts)
      → walk part parts ≡ (
          if is_multipart lib part
          then walk_all lib walk (parts_of lib part) parts
          else keep_part lib part (media_of lib part) parts)
  unfolding walk_mime_parts
  walk_lem part parts = elim (Bool-cases (is_multipart lib part)) [
    | inr e ↦ rw (e, walk_mime_parts) refl
    | inl e ↦
        rw (e, walk_mime_parts)
          (walk_all-same (walk_mime_parts lib (length part.body)) walk (length part.body)
            (parts_of lib part) parts
            (λ p q l. walk-fuel (length part.body) (suc (length p.body)) p q l (omega arith))
            (shorter part.body ((media_of lib part).params (codes "boundary"))))
  ]
