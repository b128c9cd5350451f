-- ===== src/Machine/Reg.antt =====
-- The register numbers of wvm/include/Why.h.
use why.Base.{ℕ}

abbrev pub zero_offset : ℕ
zero_offset = 0

abbrev pub global_area_pointer : ℕ
global_area_pointer = 1

abbrev pub stack_pointer : ℕ
stack_pointer = 2

abbrev pub frame_pointer : ℕ
frame_pointer = 3

abbrev pub return_address : ℕ
return_address = 4

abbrev pub lo : ℕ
lo = 5

abbrev pub hi : ℕ
hi = 6

abbrev pub return_value : ℕ
return_value = 7

abbrev pub argument : ℕ
argument = 23

abbrev pub status : ℕ
status = 101

abbrev pub exception : ℕ
exception = 122
