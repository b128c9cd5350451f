-- ===== src/Assembler/Section.antt =====
-- Sections, wasmc/include/wasm/Section.h and wasmc/src/wasm/Section.cpp: a vector of bytes with a
-- counter, the labels by counter, and the values that are filled in later.
pub mod Combining
pub mod Alignment
use why.Base.{
  ℕ, zero, suc, ◌+◌, ◌-◌, ◌*◌, ◌/◌, ◌%◌, ◌^◌, Bool, true, false, not, Option, none, some, List, [],
  ◌∷◌, ◌++◌, length, ltb, ◌==◌, if◌then◌else◌, bit_or,
}
use why.Machine.Memory.{split_bytes, join_bytes}
use why.Object.Result.{Error, Result, done, fails, undefined, fail_if, ◌>>=◌, ◌>>◌}
use why.Linker.{overwrite}
use why.Assembler.Expression.{Expression, Scope, evaluate, insert_label}

-- An expression with the counter that `setCounter` gave it, and the size of its value.
pub record SectionValue : Type 0 where
  pub value_size : ℕ
  pub expression : Expression
  pub expression_counter : ℕ

-- A map is the list of its pairs; `all_labels` is none for the null pointer.
pub record Section : Type 0 where
  pub bytes : List ℕ
  pub labels : List (ℕ × List ℕ)
  pub all_labels : Option (List (List ℕ))
  pub values : List (ℕ × SectionValue)
  pub counter : ℕ

-- `try_emplace`: a key that is there keeps its value.
unfoldable pub try_emplace {ℓ} : {A : Type ℓ} → ℕ → A → List (ℕ × A) → List (ℕ × A)
try_emplace key a [] = (key, a) ∷ []
try_emplace key a ((k, b) ∷ map) =
    let rest = try_emplace key a map in if k == key then (k, b) ∷ map else (k, b) ∷ rest

unfoldable pub insert_all_labels : List ℕ → Option (List (List ℕ)) → Option (List (List ℕ))
unfolding insert_label
insert_all_labels label none = none
insert_all_labels label (some set) = some (insert_label label set)

-- `section += label`.
unfoldable pub add_label : List ℕ → Section → Section
unfolding try_emplace insert_all_labels
add_label label s = record s {
  labels = try_emplace s.counter label s.labels;
  all_labels = insert_all_labels label s.all_labels;
}

unfoldable pub replicate_byte : ℕ → ℕ → List ℕ
replicate_byte zero value = []
replicate_byte (suc n) value = value ∷ replicate_byte n value

-- extend, of `n` bytes.
unfoldable pub extend : ℕ → ℕ → Section → Section
unfolding replicate_byte
extend n value s = record s { bytes = s.bytes ++ replicate_byte n value }

-- `section += offset`, and go.
unfoldable pub advance : ℕ → Section → Section
advance offset s = record s { counter = (s.counter + offset) % 2 ^ 64 }

unfoldable pub go : ℕ → Section → Section
go new_counter s = record s { counter = new_counter }

-- `section += {size, expression}`, which leaves the counter.
unfoldable pub add_value : SectionValue → Section → Section
unfolding try_emplace extend
add_value value s =
    extend value.value_size 0 (record s { values = try_emplace s.counter value s.values })

-- append of the bytes of an item, of a container's items or of a string.
unfoldable pub append_bytes : List ℕ → Section → Section
unfolding advance
append_bytes new s = advance (length new) (record s { bytes = s.bytes ++ new })

unfoldable pub append_long : ℕ → Section → Section
unfolding append_bytes split_bytes
append_long item = append_bytes (split_bytes 8 item)

unfoldable pub append_all : List ℕ → Section → Section
unfolding append_bytes split_bytes
append_all [] s = s
append_all (item ∷ container) s = append_all container (append_bytes (split_bytes 8 item) s)

-- insert of the bytes of an item.
unfoldable pub insert : ℕ → List ℕ → Section → Result Section
unfolding overwrite fail_if ◌>>=◌
insert offset item s = do
  fail_if (ltb (length s.bytes) ((offset + length item) % 2 ^ 64)) Error.insert_out_of_range
  done (record s { bytes = overwrite offset item s.bytes })

-- The bytes of a value by its size.
unfoldable pub sized_bytes : ℕ → ℕ → Result (List ℕ)
unfolding split_bytes
sized_bytes size value =
    if size == 8
    then done (split_bytes 8 value)
    else if size == 4
    then done (split_bytes 4 value)
    else if size == 2
    then done (split_bytes 2 value)
    else if size == 1
    then done (split_bytes 1 value)
    else fails Error.unhandled_value_size

-- applyValues; `offsets` is the assembler's map.
unfoldable pub apply_value : (List ℕ → Option ℕ) → ℕ → SectionValue → Section → Result Section
unfolding evaluate sized_bytes insert ◌>>=◌
apply_value offsets position v s = do
  value ←
      evaluate (record { offsets = offsets; counter = v.expression_counter; ignore_unknown = true })
        none v.expression
  new ← sized_bytes v.value_size value
  insert position new s

unfoldable pub apply_each : (List ℕ → Option ℕ) → List (ℕ × SectionValue) → Section → Result Section
unfolding apply_value ◌>>=◌
apply_each offsets [] s = done s
apply_each offsets ((position, v) ∷ values) s = do
  after ← apply_value offsets position v s
  apply_each offsets values after

unfoldable pub apply_values : (List ℕ → Option ℕ) → Section → Result Section
unfolding apply_each
apply_values offsets s = apply_each offsets s.values s

-- alignUp, with the counter that it returns; an alignment of zero divides by zero.
unfoldable pub align_up : ℕ → Section → Result (Section × ℕ)
unfolding extend advance
align_up alignment s =
    let to_add = alignment - s.counter % alignment in
    if alignment == 0
    then undefined
    else if s.counter % alignment == 0
    then done (s, s.counter)
    else done (advance to_add (extend to_add 0 s), (advance to_add (extend to_add 0 s)).counter)

-- clear keeps the labels and the values.
unfoldable pub clear : Section → Section
clear s = record s { bytes = []; counter = 0 }

-- The words of a section's bytes, eight at a time.
unfoldable pub words_of : List ℕ → Result (List ℕ)
unfolding join_bytes ◌>>=◌
words_of [] = done []
words_of (b0 ∷ (b1 ∷ (b2 ∷ (b3 ∷ (b4 ∷ (b5 ∷ (b6 ∷ (b7 ∷ bytes)))))))) = do
  rest ← words_of bytes
  done (join_bytes (b0 ∷ (b1 ∷ (b2 ∷ (b3 ∷ (b4 ∷ (b5 ∷ (b6 ∷ (b7 ∷ [])))))))) ∷ rest)
words_of _ = undefined

-- The loop over the sizes, and the one over the words, of Section::combine.
unfoldable pub check_sizes : List Section → Result (Unit {0})
unfolding fail_if ◌>>=◌
check_sizes [] = done tt
check_sizes (s ∷ list) = do
  fail_if (not (length s.bytes % 8 == 0)) Error.invalid_section_size
  check_sizes list

unfoldable pub combine_words : List Section → Result (List ℕ)
unfolding words_of ◌>>=◌
combine_words [] = done []
combine_words (s ∷ list) = do
  here ← words_of s.bytes
  rest ← combine_words list
  done (here ++ rest)

unfoldable pub combine_sections : List Section → Result (List ℕ)
unfolding check_sizes combine_words ◌>>=◌
combine_sections list = do check_sizes list; combine_words list
