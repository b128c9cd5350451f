-- ===== src/Linker/Relocation.antt =====
-- What a relocation of the linker does to a section.
use why.Base.{
  ℕ, suc, ◌+◌, ◌*◌, ◌/◌, ◌%◌, ◌^◌, ◌≤◌, ◌<◌, ◌≡◌, refl, sym, ap, ◌∙◌, ◌⊎◌, inl, inr, true, false,
  List, [], ◌∷◌, ◌++◌, length, length-append, ◌==◌, arith, Bool-cases,
}
use why.Machine.Memory.{split_bytes}
use why.Machine.Memory.Bytes.{AreBytes, AreBytes-split_bytes, length-split_bytes}
use why.Object.Result.{done}
use why.Object.Words.Packing.{bytes_of}
use why.Object.Relocations.{full, lower4, upper4}
use why.Linker.{overwrite, relocated_bytes, patch_across, patch_within, patch}
use why.Linker.Patch.{place, patch_across_lem, patch_within_lem}

relocated_bytes_lem :
    (type value : ℕ) (new : List ℕ)
    → relocated_bytes type value ≡ done new
    → AreBytes new × (length new ≤ 8)
unfolding relocated_bytes
relocated_bytes_lem type value new e = elim (Bool-cases (type == full)) [
  | inl is_full ↦
      let bytes : split_bytes 8 value ≡ new = (let found = rw is_full at e in cc) in
      of_split 8 value new (omega arith) bytes
  | inr not_full ↦ elim (Bool-cases (type == lower4)) [
    | inl is_lower ↦
        let bytes : split_bytes 4 value ≡ new = (let found = rw (not_full, is_lower) at e in cc) in
        of_split 4 value new (omega arith) bytes
    | inr not_lower ↦ elim (Bool-cases (type == upper4)) [
      | inl is_upper ↦
          let bytes : split_bytes 4 (value / 2 ^ 32) ≡ new =
            (let found = rw (not_full, not_lower, is_upper) at e in cc) in
          of_split 4 (value / 2 ^ 32) new (omega arith) bytes
      | inr not_upper ↦ let found = rw (not_full, not_lower, not_upper) at e in cc
    ]
  ]
]
  where
    of_split :
        (n v : ℕ) (bs : List ℕ) → n ≤ 8 → split_bytes n v ≡ bs → AreBytes bs × (length bs ≤ 8)
    of_split n v bs h same = (
      rw same at (AreBytes-split_bytes n v),
      omega (arith, ap length same, length-split_bytes n v),
    )

-- The word of the offset lies in the section, and the next one does when the offset is not that of a word.
abbrev pub InSection : ℕ → List ℕ → Type 0
InSection section_offset longs =
    (section_offset / 8 < length longs)
    × ((section_offset % 8 ≡ 0) ⊎ (suc (section_offset / 8) < length longs))

module _ (section_offset type value : ℕ) (longs : List ℕ) where
  patch_aligned :
      (section_offset % 8 == 0) ≡ true
      → patch section_offset type value longs ≡ patch_within (section_offset / 8) type value longs
  unfolding patch
  patch_aligned h = rw h refl

  patch_unaligned :
      (section_offset % 8 == 0) ≡ false
      → patch section_offset type value longs
        ≡ patch_across (section_offset / 8) (section_offset % 8) type value longs
  unfolding patch
  patch_unaligned h = rw h refl

  module _ (new : List ℕ) (e : relocated_bytes type value ≡ done new) where
    abbrev Patched : Type 0
    Patched =
        (patched : List ℕ) × (patch section_offset type value longs ≡ done patched)
        × (bytes_of patched ≡ overwrite section_offset new (bytes_of longs))

    patched_within :
        (before after : List ℕ) (a : ℕ)
        → (section_offset % 8 == 0) ≡ true
        → length before ≡ section_offset / 8
        → longs ≡ before ++ (a ∷ after)
        → Patched
    patched_within before after a aligned size parts =
        let (bytes, short) = relocated_bytes_lem type value new e in
        let (patched, found, same) = patch_within_lem type value new before after a e bytes short in
        let offset : 8 * length before + 0 ≡ section_offset = ground arith in
        (
          patched,
          patch_aligned aligned
              ∙ ap (λ (q : ℕ). patch_within q type value longs) (sym size)
              ∙ ap (patch_within (length before) type value) parts
              ∙ found,
          same
              ∙ ap (λ (k : ℕ). overwrite k new (bytes_of (before ++ (a ∷ after)))) offset
              ∙ ap (λ (ls : List ℕ). overwrite section_offset new (bytes_of ls)) (sym parts),
        )

    patched_across :
        (before after : List ℕ) (a : ℕ)
        → (section_offset % 8 == 0) ≡ false
        → suc (section_offset / 8) < length longs
        → length before ≡ section_offset / 8
        → longs ≡ before ++ (a ∷ after)
        → Patched
    patched_across before [] a across room size parts =
        absurd (omega (arith, ap length parts, length-append before (a ∷ [])))
    patched_across before (b ∷ after) a across room size parts =
        let (bytes, short) = relocated_bytes_lem type value new e in
        let position = section_offset % 8 in
        let fits : position + length new ≤ 16 = omega arith in
        let (patched, found, same) =
          patch_across_lem position type value new before after a b e bytes fits in
        let offset : 8 * length before + position ≡ section_offset = omega arith in
        (
          patched,
          patch_unaligned across
              ∙ ap (λ (q : ℕ). patch_across q position type value longs) (sym size)
              ∙ ap (patch_across (length before) position type value) parts
              ∙ found,
          same
              ∙ ap (λ (k : ℕ). overwrite k new (bytes_of (before ++ (a ∷ (b ∷ after))))) offset
              ∙ ap (λ (ls : List ℕ). overwrite section_offset new (bytes_of ls)) (sym parts),
        )

-- A relocation whose words lie in the section puts the bytes of its type over the bytes of the section
-- at its offset, at whatever place in a word that is, and changes no other byte.
pub patch-overwrite :
    (section_offset type value : ℕ) (new longs : List ℕ)
    → relocated_bytes type value ≡ done new
    → InSection section_offset longs
    → (patched : List ℕ) × (patch section_offset type value longs ≡ done patched)
      × (bytes_of patched ≡ overwrite section_offset new (bytes_of longs))
patch-overwrite section_offset type value new longs e inside =
    let (before, a, after, parts, size) = place (section_offset / 8) longs inside.0 in
    elim (Bool-cases (section_offset % 8 == 0)) [
      | inl aligned ↦
          patched_within section_offset type value longs new e before after a aligned size parts
      | inr across ↦
          let room : suc (section_offset / 8) < length longs = ground (arith, inside.1) in
          patched_across section_offset type value longs new e before after a across room size parts
    ]
