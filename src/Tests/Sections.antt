-- ===== src/Tests/Sections.antt =====
-- The theorems on sections and on the linker's relocation at concrete values.
use why.Base.{ℕ, ◌+◌, ◌%◌, ◌<◌, ◌≡◌, refl, inr, none, List, [], ◌∷◌, ◌++◌, arith}
use why.Machine.Memory.{split_bytes}
use why.Object.Result.{done}
use why.Object.Words.Packing.{bytes_of}
use why.Linker.{overwrite, relocated_bytes, patch}
use why.Linker.Relocation.{patch-overwrite}
use why.Assembler.Section.{Section, align_up, combine_sections, replicate_byte}
use why.Assembler.Section.Combining.{all_bytes, combine_sections-bytes_of}
use why.Assembler.Section.Alignment.{InStep, align_up-InStep}

abbrev two_longs : List ℕ
two_longs = 1 ∷ (2 ∷ [])

abbrev four_new : List ℕ
four_new = 68 ∷ (51 ∷ (34 ∷ (17 ∷ [])))

four_new_lem : relocated_bytes 2 287454020 ≡ done four_new
unfolding relocated_bytes split_bytes
four_new_lem = refl

-- The lower four bytes of a value, at byte 6.
patch-overwrite_example :
    (patched : List ℕ) × (patch 6 2 287454020 two_longs ≡ done patched)
    × (bytes_of patched ≡ overwrite 6 four_new (bytes_of two_longs))
patch-overwrite_example =
    patch-overwrite 6 2 287454020 four_new two_longs four_new_lem (omega arith, inr (omega arith))

abbrev one_word_section : Section
one_word_section = record {
  bytes = 1 ∷ (2 ∷ (3 ∷ (4 ∷ (5 ∷ (6 ∷ (7 ∷ (8 ∷ [])))))));
  labels = [];
  all_labels = none;
  values = [];
  counter = 8;
}

abbrev ragged_section : Section
ragged_section = record {
  bytes = 1 ∷ (2 ∷ (3 ∷ []));
  labels = [];
  all_labels = none;
  values = [];
  counter = 3;
}

abbrev section_list : List Section
section_list = one_word_section ∷ (one_word_section ∷ [])

combine_sections-bytes_of_example :
    (words : List ℕ) × (combine_sections section_list ≡ done words)
    × (bytes_of words ≡ all_bytes section_list)
combine_sections-bytes_of_example =
    combine_sections-bytes_of section_list
      ((omega arith, omega arith), ((omega arith, omega arith), tt))

align_up-InStep_example :
    (after : Section) × (n : ℕ) × (align_up 8 ragged_section
      ≡ done (after, ragged_section.counter + n))
    × (n < 8)
    × ((ragged_section.counter + n) % 8 ≡ 0)
    × (after.bytes ≡ ragged_section.bytes ++ replicate_byte n 0)
    × (after.counter ≡ ragged_section.counter + n)
    × InStep after
align_up-InStep_example = align_up-InStep 8 ragged_section (omega arith) (omega arith) refl
