-- ===== src/Linker/Patch.antt =====
-- A relocation overwrites bytes of a section, wherever in its words they stand.
use why.Base.{
  ℕ, zero, suc, ◌+◌, ◌-◌, ◌*◌, ◌%◌, ◌≤◌, ◌<◌, ◌≡◌, refl, sym, ap, ◌∙◌, inl, inr, true, false, List,
  [], ◌∷◌, ◌++◌, length, length-append, ◌==◌, if◌then◌else◌, arith, Bool-cases,
}
use mathlib.Core.List.{append_assoc, append-nil}
use why.Machine.Memory.{split_bytes}
use why.Machine.Memory.Bytes.{AreBytes, AreBytes-split_bytes, AreBytes-append, length-split_bytes}
use why.Object.Result.{Result, done, index, ◌>>=◌}
use why.Object.Words.{get_bytes, get_longs}
use why.Object.Words.Packing.{bytes_of, bytes_of-append, length-bytes_of, bytes_of-get_longs}
use why.Object.Relocations.{full}
use why.Linker.{set_elem, overwrite, relocated_bytes, patch_across, patch_within}

overwrite_none : (bytes : List ℕ) → overwrite 0 [] bytes ≡ bytes
unfolding overwrite
overwrite_none [] = refl
overwrite_none (b ∷ bytes) = refl

length-overwrite :
    (position : ℕ) (new bytes : List ℕ) → length (overwrite position new bytes) ≡ length bytes
unfolding overwrite
length-overwrite position new [] = refl
length-overwrite zero [] (b ∷ bytes) = refl
length-overwrite zero (n ∷ new) (b ∷ bytes) = ap suc (length-overwrite zero new bytes)
length-overwrite (suc position) new (b ∷ bytes) = ap suc (length-overwrite position new bytes)

AreBytes-overwrite :
    (position : ℕ) (new bytes : List ℕ)
    → AreBytes new
    → AreBytes bytes
    → AreBytes (overwrite position new bytes)
unfolding overwrite
AreBytes-overwrite position new [] h k = tt
AreBytes-overwrite zero [] (b ∷ bytes) h k = k
AreBytes-overwrite zero (n ∷ new) (b ∷ bytes) h k = (h.0, AreBytes-overwrite zero new bytes h.1 k.1)
AreBytes-overwrite (suc position) new (b ∷ bytes) h k =
    (k.0, AreBytes-overwrite position new bytes h k.1)

-- Bytes that lie in a front part, and bytes behind it.
overwrite_front :
    (position : ℕ) (new xs ys : List ℕ)
    → position + length new ≤ length xs
    → overwrite position new (xs ++ ys) ≡ overwrite position new xs ++ ys
unfolding overwrite
overwrite_front zero [] xs ys h =
    overwrite_none (xs ++ ys) ∙ ap (λ (t : List ℕ). t ++ ys) (sym (overwrite_none xs))
overwrite_front zero (n ∷ new) [] ys h = absurd (omega arith)
overwrite_front zero (n ∷ new) (x ∷ xs) ys h =
    ap (λ (t : List ℕ). n ∷ t) (overwrite_front zero new xs ys (omega arith))
overwrite_front (suc position) new [] ys h = absurd (omega arith)
overwrite_front (suc position) new (x ∷ xs) ys h =
    ap (λ (t : List ℕ). x ∷ t) (overwrite_front position new xs ys (omega arith))

overwrite_behind :
    (k position : ℕ) (new xs ys : List ℕ)
    → k ≡ length xs + position
    → overwrite k new (xs ++ ys) ≡ xs ++ overwrite position new ys
unfolding overwrite
overwrite_behind k position new [] ys h =
    let same : k ≡ position = omega arith in ap (λ (t : ℕ). overwrite t new ys) same
overwrite_behind zero position new (x ∷ xs) ys h = absurd (omega arith)
overwrite_behind (suc k) position new (x ∷ xs) ys h =
    ap (λ (t : List ℕ). x ∷ t) (overwrite_behind k position new xs ys (omega arith))

length-get_bytes : (w : ℕ) → length (get_bytes w) ≡ 8
unfolding get_bytes
length-get_bytes w = length-split_bytes 8 w

AreBytes-get_bytes : (w : ℕ) → AreBytes (get_bytes w)
unfolding get_bytes
AreBytes-get_bytes w = AreBytes-split_bytes 8 w

-- Whole words of bytes are packed with nothing added.
whole_words :
    (n : ℕ) (bytes : List ℕ)
    → AreBytes bytes
    → length bytes ≡ 8 * suc n
    → (bytes_of (get_longs bytes) ≡ bytes) × (length (get_longs bytes) ≡ suc n)
whole_words n bytes h size =
    let some_byte : (length bytes == 0) ≡ false = ground arith in
    let no_padding : (8 - length bytes % 8) % 8 ≡ 0 = omega arith in
    let packed = rw (some_byte, no_padding, append-nil) at (bytes_of-get_longs bytes h) in
    (packed, omega (arith, length-bytes_of (get_longs bytes), ap length packed))

-- Two words out of sixteen bytes.
two_words :
    (bytes : List ℕ)
    → AreBytes bytes
    → length bytes ≡ 16
    → (x : ℕ) × (y : ℕ) × (get_longs bytes ≡ x ∷ (y ∷ [])) × (get_bytes x ++ get_bytes y ≡ bytes)
two_words bytes h size = by_words (get_longs bytes) refl
  where
    packed : (bytes_of (get_longs bytes) ≡ bytes) × (length (get_longs bytes) ≡ 2)
    packed = whole_words 1 bytes h size

    by_words :
        (ws : List ℕ)
        → get_longs bytes ≡ ws
        → (x : ℕ) × (y : ℕ) × (get_longs bytes ≡ x ∷ (y ∷ []))
          × (get_bytes x ++ get_bytes y ≡ bytes)
    by_words [] e = absurd (omega (arith, packed.1, ap length e))
    by_words (x ∷ []) e = absurd (omega (arith, packed.1, ap length e))
    by_words (x ∷ (y ∷ (z ∷ ws))) e = absurd (omega (arith, packed.1, ap length e))
    by_words (x ∷ (y ∷ [])) e = (
      x,
      y,
      e,
      ap (λ (t : List ℕ). get_bytes x ++ t) (sym (append-nil (get_bytes y)))
          ∙ ap bytes_of (sym e)
          ∙ packed.0,
    )

one_word :
    (bytes : List ℕ)
    → AreBytes bytes
    → length bytes ≡ 8
    → (x : ℕ) × (get_longs bytes ≡ x ∷ []) × (get_bytes x ≡ bytes)
one_word bytes h size = by_words (get_longs bytes) refl
  where
    packed : (bytes_of (get_longs bytes) ≡ bytes) × (length (get_longs bytes) ≡ 1)
    packed = whole_words 0 bytes h size

    by_words :
        (ws : List ℕ)
        → get_longs bytes ≡ ws
        → (x : ℕ) × (get_longs bytes ≡ x ∷ []) × (get_bytes x ≡ bytes)
    by_words [] e = absurd (omega (arith, packed.1, ap length e))
    by_words (x ∷ (y ∷ ws)) e = absurd (omega (arith, packed.1, ap length e))
    by_words (x ∷ []) e = (x, e, sym (append-nil (get_bytes x)) ∙ ap bytes_of (sym e) ∙ packed.0)

-- A place in a vector.
pub place :
    (q : ℕ) (longs : List ℕ)
    → q < length longs
    → (before : List ℕ) × (a : ℕ) × (after : List ℕ) × (longs ≡ before ++ (a ∷ after))
      × (length before ≡ q)
place q [] h = absurd (omega arith)
place zero (w ∷ longs) h = ([], w, longs, refl, refl)
place (suc q) (w ∷ longs) h =
    let (before, a, after, e, size) = place q longs (omega arith) in
    (w ∷ before, a, after, ap (λ (t : List ℕ). w ∷ t) e, ap suc size)

module _ (a x : ℕ) (after : List ℕ) where
  set_elem_place :
      (before : List ℕ) → set_elem (length before) x (before ++ (a ∷ after)) ≡ before ++ (x ∷ after)
  unfolding set_elem
  set_elem_place [] = refl
  set_elem_place (b ∷ before) = ap (λ (t : List ℕ). b ∷ t) (set_elem_place before)

  set_elem_next :
      (w : ℕ) (before : List ℕ)
      → set_elem (suc (length before)) x (before ++ (w ∷ (a ∷ after))) ≡ before ++ (w ∷ (x ∷ after))
  unfolding set_elem
  set_elem_next w [] = refl
  set_elem_next w (b ∷ before) = ap (λ (t : List ℕ). b ∷ t) (set_elem_next w before)

  index_place : (before : List ℕ) → index (before ++ (a ∷ after)) (length before) ≡ done a
  unfolding index
  index_place [] = refl
  index_place (b ∷ before) = index_place before

  index_next :
      (w : ℕ) (before : List ℕ) → index (before ++ (w ∷ (a ∷ after))) (suc (length before)) ≡ done a
  unfolding index
  index_next w [] = refl
  index_next w (b ∷ before) = index_next w before

-- The bytes of the words in front, of the words that are patched, and of those behind.
overwrite_words :
    (position : ℕ) (new : List ℕ) (before middle after : List ℕ)
    → position + length new ≤ length (bytes_of middle)
    → overwrite (8 * length before + position) new (bytes_of (before ++ (middle ++ after)))
      ≡ bytes_of before ++ (overwrite position new (bytes_of middle) ++ bytes_of after)
overwrite_words position new before middle after h =
    ap (overwrite (8 * length before + position) new) (bytes_of-append before (middle ++ after))
    ∙ overwrite_behind (8 * length before + position) position new (bytes_of before)
        (bytes_of (middle ++ after)) (omega (arith, length-bytes_of before))
    ∙ ap (λ (t : List ℕ). bytes_of before ++ overwrite position new t)
        (bytes_of-append middle after)
    ∙ ap (λ (t : List ℕ). bytes_of before ++ t)
        (overwrite_front position new (bytes_of middle) (bytes_of after) h)

across_bytes :
    (position : ℕ) (new before after : List ℕ) (a b x y : ℕ)
    → position + length new ≤ 16
    → get_bytes x ++ get_bytes y ≡ overwrite position new (get_bytes a ++ get_bytes b)
    → bytes_of (before ++ (x ∷ (y ∷ after)))
      ≡ overwrite (8 * length before + position) new (bytes_of (before ++ (a ∷ (b ∷ after))))
across_bytes position new before after a b x y room same =
    let two : bytes_of (a ∷ (b ∷ [])) ≡ get_bytes a ++ get_bytes b =
      ap (λ (t : List ℕ). get_bytes a ++ t) (append-nil (get_bytes b)) in
    let size : length (bytes_of (a ∷ (b ∷ []))) ≡ 16 = length-bytes_of (a ∷ (b ∷ [])) in
    bytes_of-append before (x ∷ (y ∷ after))
    ∙ ap (λ (t : List ℕ). bytes_of before ++ t)
        (sym (append_assoc (get_bytes x) (get_bytes y) (bytes_of after)))
    ∙ ap (λ (t : List ℕ). bytes_of before ++ (t ++ bytes_of after)) same
    ∙ ap (λ (t : List ℕ). bytes_of before ++ (overwrite position new t ++ bytes_of after)) (sym two)
    ∙ sym (overwrite_words position new before (a ∷ (b ∷ [])) after (omega arith))

within_bytes :
    (new before after : List ℕ) (a x : ℕ)
    → length new ≤ 8
    → get_bytes x ≡ overwrite 0 new (get_bytes a)
    → bytes_of (before ++ (x ∷ after))
      ≡ overwrite (8 * length before + 0) new (bytes_of (before ++ (a ∷ after)))
within_bytes new before after a x room same =
    let one : bytes_of (a ∷ []) ≡ get_bytes a = append-nil (get_bytes a) in
    let size : length (bytes_of (a ∷ [])) ≡ 8 = length-bytes_of (a ∷ []) in
    bytes_of-append before (x ∷ after)
    ∙ ap (λ (t : List ℕ). bytes_of before ++ (t ++ bytes_of after)) same
    ∙ ap (λ (t : List ℕ). bytes_of before ++ (overwrite 0 new t ++ bytes_of after)) (sym one)
    ∙ sym (overwrite_words 0 new before (a ∷ []) after (omega arith))

overwrite_all : (new bytes : List ℕ) → length new ≡ length bytes → overwrite 0 new bytes ≡ new
unfolding overwrite
overwrite_all [] [] h = refl
overwrite_all [] (b ∷ bytes) h = absurd (omega arith)
overwrite_all (n ∷ new) [] h = absurd (omega arith)
overwrite_all (n ∷ new) (b ∷ bytes) h =
    ap (λ (t : List ℕ). n ∷ t) (overwrite_all new bytes (omega arith))

full_bytes :
    (type value : ℕ) (new : List ℕ)
    → (type == full) ≡ true
    → relocated_bytes type value ≡ done new
    → split_bytes 8 value ≡ new
unfolding relocated_bytes
full_bytes type value new whole e = let found = rw whole at e in cc

-- The word that a relocation puts in place of `a`.
new_word : (a type value : ℕ) (new : List ℕ) → Result ℕ
new_word a type value new =
    if type == full then done value else index (get_longs (overwrite 0 new (get_bytes a))) 0

new_word_lem :
    (a type value : ℕ) (new : List ℕ)
    → relocated_bytes type value ≡ done new
    → AreBytes new
    → (x : ℕ) × (new_word a type value new ≡ done x) × (get_bytes x ≡ overwrite 0 new (get_bytes a))
unfolding new_word index get_bytes
new_word_lem a type value new e h = elim (Bool-cases (type == full)) [
  | inl whole ↦
      let bytes = full_bytes type value new whole e in
      let size : length new ≡ length (get_bytes a) =
        ap length (sym bytes) ∙ length-split_bytes 8 value ∙ sym (length-split_bytes 8 a) in
      (value, rw whole refl, bytes ∙ sym (overwrite_all new (get_bytes a) size))
  | inr part ↦
      let patched = overwrite 0 new (get_bytes a) in
      let (x, words, same) =
        one_word patched (AreBytes-overwrite 0 new (get_bytes a) h (AreBytes-get_bytes a))
          (length-overwrite 0 new (get_bytes a) ∙ length-get_bytes a) in
      (x, rw (part, words) refl, same)
]

-- Of two words.
pub patch_across_lem :
    (position type value : ℕ) (new before after : List ℕ) (a b : ℕ)
    → relocated_bytes type value ≡ done new
    → AreBytes new
    → position + length new ≤ 16
    → (longs : List ℕ) × (patch_across
          (length before)
          position
          type
          value
          (before ++ (a ∷ (b ∷ after)))
        ≡ done longs)
      × (bytes_of longs
          ≡ overwrite (8 * length before + position) new (bytes_of (before ++ (a ∷ (b ∷ after)))))
unfolding patch_across index ◌>>=◌
patch_across_lem position type value new before after a b e h room =
    let sixteen = get_bytes a ++ get_bytes b in
    let size : length sixteen ≡ 16 =
      omega (
        arith,
        length-append (get_bytes a) (get_bytes b),
        length-get_bytes a,
        length-get_bytes b,
      ) in
    let bytes : AreBytes sixteen =
      AreBytes-append (get_bytes a) (get_bytes b) (AreBytes-get_bytes a) (AreBytes-get_bytes b) in
    let patched = overwrite position new sixteen in
    let (x, y, words, same) =
      two_words patched (AreBytes-overwrite position new sixteen h bytes)
        (length-overwrite position new sixteen ∙ size) in
    (
      before ++ (x ∷ (y ∷ after)),
      rw
          (
            index_place a x (b ∷ after) before,
            index_next b x after a before,
            e,
            words,
            set_elem_place a x (b ∷ after) before,
            set_elem_next b y after x before,
          )
          refl,
      across_bytes position new before after a b x y room same,
    )

-- Of one word.
pub patch_within_lem :
    (type value : ℕ) (new before after : List ℕ) (a : ℕ)
    → relocated_bytes type value ≡ done new
    → AreBytes new
    → length new ≤ 8
    → (longs : List ℕ) × (patch_within (length before) type value (before ++ (a ∷ after))
        ≡ done longs)
      × (bytes_of longs ≡ overwrite (8 * length before + 0) new (bytes_of (before ++ (a ∷ after))))
unfolding patch_within new_word ◌>>=◌
patch_within_lem type value new before after a e h room =
    let (x, word, same) = new_word_lem a type value new e h in
    (
      before ++ (x ∷ after),
      rw (index_place a x after before, e, word, set_elem_place a x after before) refl,
      within_bytes new before after a x room same,
    )
