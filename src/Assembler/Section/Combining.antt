-- ===== src/Assembler/Section/Combining.antt =====
-- The words that the sections of an object are combined to.
use why.Base.{ℕ, ◌%◌, ◌≡◌, refl, sym, ap, ◌∙◌, true, List, [], ◌∷◌, ◌++◌, length, ◌==◌, arith, All}
use why.Machine.Memory.{split_bytes, join_bytes}
use why.Machine.Memory.Bytes.{AreBytes, split-join_bytes}
use why.Object.Result.{done, fail_if, ◌>>=◌}
use why.Object.Words.{get_bytes}
use why.Object.Words.Packing.{bytes_of, bytes_of-append}
use why.Assembler.Section.{Section, words_of, check_sizes, combine_words, combine_sections}

-- The bytes of a section fill whole words.
abbrev pub IsWhole : Section → Type 0
IsWhole s = (length s.bytes % 8 ≡ 0) × AreBytes s.bytes

abbrev pub all_bytes : List Section → List ℕ
all_bytes [] = []
all_bytes (s ∷ list) = s.bytes ++ all_bytes list

get_bytes-join_bytes : (bs : List ℕ) → AreBytes bs → length bs ≡ 8 → get_bytes (join_bytes bs) ≡ bs
unfolding get_bytes
get_bytes-join_bytes bs h size =
    ap (λ (n : ℕ). split_bytes n (join_bytes bs)) (sym size) ∙ split-join_bytes bs h

words_of_lem :
    (bs : List ℕ)
    → length bs % 8 ≡ 0
    → AreBytes bs
    → (ws : List ℕ) × (words_of bs ≡ done ws) × (bytes_of ws ≡ bs)
unfolding words_of ◌>>=◌
words_of_lem [] h k = ([], refl, refl)
words_of_lem (a ∷ []) h k = absurd (omega arith)
words_of_lem (a ∷ (b ∷ [])) h k = absurd (omega arith)
words_of_lem (a ∷ (b ∷ (c ∷ []))) h k = absurd (omega arith)
words_of_lem (a ∷ (b ∷ (c ∷ (d ∷ [])))) h k = absurd (omega arith)
words_of_lem (a ∷ (b ∷ (c ∷ (d ∷ (e ∷ []))))) h k = absurd (omega arith)
words_of_lem (a ∷ (b ∷ (c ∷ (d ∷ (e ∷ (f ∷ [])))))) h k = absurd (omega arith)
words_of_lem (a ∷ (b ∷ (c ∷ (d ∷ (e ∷ (f ∷ (g ∷ []))))))) h k = absurd (omega arith)
words_of_lem (a ∷ (b ∷ (c ∷ (d ∷ (e ∷ (f ∷ (g ∷ (i ∷ bs)))))))) h
      (ka, (kb, (kc, (kd, (ke, (kf, (kg, (ki, k)))))))) =
    let eight = a ∷ (b ∷ (c ∷ (d ∷ (e ∷ (f ∷ (g ∷ (i ∷ []))))))) in
    let bytes =
      get_bytes-join_bytes eight (ka, (kb, (kc, (kd, (ke, (kf, (kg, (ki, tt)))))))) refl in
    let (ws, words, same) = words_of_lem bs (omega arith) k in
    (
      join_bytes eight ∷ ws,
      rw words refl,
      ap (λ (t : List ℕ). get_bytes (join_bytes eight) ++ t) same
          ∙ ap (λ (t : List ℕ). t ++ bs) bytes,
    )

combine_words_lem :
    (list : List Section)
    → All IsWhole list
    → (ws : List ℕ) × (combine_words list ≡ done ws) × (bytes_of ws ≡ all_bytes list)
unfolding combine_words ◌>>=◌
combine_words_lem [] h = ([], refl, refl)
combine_words_lem (s ∷ list) h =
    let (here, words, same) = words_of_lem s.bytes h.0.0 h.0.1 in
    let (rest, later, others) = combine_words_lem list h.1 in
    (
      here ++ rest,
      rw (words, later) refl,
      bytes_of-append here rest
          ∙ ap (λ (t : List ℕ). t ++ bytes_of rest) same
          ∙ ap (λ (t : List ℕ). s.bytes ++ t) others,
    )

check_sizes_lem : (list : List Section) → All IsWhole list → check_sizes list ≡ done tt
unfolding check_sizes fail_if ◌>>=◌
check_sizes_lem [] h = refl
check_sizes_lem (s ∷ list) h =
    let whole : (length s.bytes % 8 == 0) ≡ true = ground (arith, h.0.0) in
    rw (whole, check_sizes_lem list h.1) refl

-- Sections whose bytes fill whole words are combined to the words whose bytes are those of the sections,
-- one section after the other.
pub combine_sections-bytes_of :
    (list : List Section)
    → All IsWhole list
    → (words : List ℕ) × (combine_sections list ≡ done words) × (bytes_of words ≡ all_bytes list)
unfolding combine_sections ◌>>=◌
combine_sections-bytes_of list h =
    let (words, combined, same) = combine_words_lem list h in
    (words, rw (check_sizes_lem list h, combined) refl, same)
