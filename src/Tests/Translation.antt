-- ===== src/Tests/Translation.antt =====
-- The theorems on translation, with one table that serves every level, and on the flags.
use why.Base.{
  ◌+◌, ◌*◌, ◌^◌, ◌%◌, ◌≡◌, refl, inr, true, false, ◌||◌, ◌&&◌, ◌==◌, leb, if◌then◌else◌, arith,
  signed,
}
use why.Machine.Types.{PageMeta}
use why.Machine.State.{Vm, ok, ◌>>=◌, gets, pure}
use why.Machine.Memory.{get_word}
use why.Machine.Paging.{translate_address}
use why.Machine.Paging.Mapping.{
  HasEntry, Leads, arrived, follow, Misses, missing, further, asked, Parts, FitsParts, address_of,
  upper, page_entry, translate_address-Leads, translate_address-Misses,
}
use why.Machine.Control.{update_flags, check_conditions}
use why.Machine.Control.Conditions.{
  is_zero, condition_code, holds_of, flagged, check_conditions-update_flags,
}
use why.Tests.{machine}

-- At 256, six entries of one table that serves every level: each is 257, present and leading to 256.
-- The last is 65583: the page 1, modified, user, executable and writable.
abbrev tables : Vm
tables = record machine {
  memory_size = 512;
  allocated = 512;
  memory = λ i.
      if i == 296
      then 47
      else if i == 298
      then 1
      else if leb 256 i && leb i 289 && ((i % 8 == 0) || (i % 8 == 1))
      then 1
      else 0;
  paging_on = true;
  p0 = 256;
}

abbrev six_parts : Parts
six_parts = record { i0 = 0; i1 = 1; i2 = 2; i3 = 3; i4 = 4; i5 = 5; offset = 7 }

six_parts-Fits : FitsParts six_parts
six_parts-Fits = record {
  fits0 = omega arith;
  fits1 = omega arith;
  fits2 = omega arith;
  fits3 = omega arith;
  fits4 = omega arith;
  fits5 = omega arith;
  fits_offset = omega arith;
}

abbrev page_flags : PageMeta
page_flags = record {
  present = true;
  writable = true;
  executable = true;
  user = true;
  accessed = false;
  modified = true;
}

tables-Leads : Leads (asked (address_of six_parts) tables) (upper six_parts) 256 256
unfolding get_word ◌>>=◌ gets pure
tables-Leads = follow 1 0 (omega arith) refl (
    follow 1 0 (omega arith) refl (
      follow 1 0 (omega arith) refl
        (follow 1 0 (omega arith) refl (follow 1 0 (omega arith) refl arrived))))

last_entry : HasEntry (asked (address_of six_parts) tables) 256 5 (page_entry 1 0 page_flags)
unfolding get_word ◌>>=◌ gets pure
last_entry = refl

translate_address-Leads_example :
    translate_address (address_of six_parts) tables
    ≡ ok
        (1 * 2 ^ 16 + 7, true)
        (record tables {
          last_virtual = address_of six_parts;
          last_meta = record page_flags { present = true };
        })
translate_address-Leads_example =
    translate_address-Leads tables six_parts 256 1 0 page_flags refl (omega arith) six_parts-Fits
      tables-Leads last_entry (omega arith) (omega arith)

-- The third entry is not present.
abbrev two_entries : Vm
two_entries = record tables { memory = λ i. if leb i 271 then tables.memory i else 0 }

third_missing : Misses (asked (address_of six_parts) two_entries) (upper six_parts) 256
unfolding get_word ◌>>=◌ gets pure
third_missing = further 1 0 (omega arith) refl (further 1 0 (omega arith) refl (missing 0 refl))

translate_address-Misses_example :
    translate_address (address_of six_parts) two_entries
    ≡ ok (0, false) (asked (address_of six_parts) two_entries)
translate_address-Misses_example =
    translate_address-Misses two_entries six_parts refl six_parts-Fits (inr third_missing)

check_conditions-update_flags_example :
    (update_flags 0 machine ≡ ok tt (flagged 0 machine))
    × (check_conditions (condition_code is_zero) (flagged 0 machine)
        ≡ ok (holds_of is_zero (signed 0)) (flagged 0 machine))
check_conditions-update_flags_example = check_conditions-update_flags 0 is_zero machine
