-- ===== src/Machine/WellFormed/Accessors.antt =====
-- The memory accessors keep the invariant, and what they return fits its type.
use why.Base.{
  ℕ, zero, suc, ◌+◌, ◌^◌, ◌<◌, ◌≡◌, refl, ap, inl, inr, List, [], ◌∷◌, length, IsWord, ltb, ◌==◌,
  Bool-cases,
}
use why.Machine.Types.{Size, Endianness}
use why.Machine.State.{pure, fault, modify, update, get_reg, put_reg}
use why.Machine.Memory.{
  read_byte, write_byte, read_bytes, write_bytes, ordered, check_bounds, load, store, get, set,
  get_word,
}
use why.Machine.Memory.Bytes.{
  AreBytes, span_mod, join_bytes-lt, AreBytes-split_bytes, AreBytes-ordered, length-ordered,
}
use why.Machine.Memory.RoundTrip.{span_of, order_of, get-load, set-store}
use why.Machine.Ensures.{
  Ensures, Keeps, Any, Ensures-gets, Keeps-modify, Ensures-pure, Ensures-bind, ensures_rules,
}
use why.Machine.WellFormed.{WellFormed}

-- A function whose values fit, changed to a value that fits.
pub update-fits :
    (f : ℕ → ℕ) (p v k : ℕ) → ((i : ℕ) → f i < 2 ^ k) → v < 2 ^ k → (i : ℕ) → update f p v i < 2 ^ k
update-fits f p v k h w i = elim (Bool-cases (p == i)) [ inl e ↦ rw e w | inr e ↦ rw e (h i) ]

module _ {lowest size : ℕ} where
  pub get_reg-WellFormed : (r : ℕ) → Ensures (WellFormed lowest size) IsWord (get_reg r)
  unfolding get_reg
  get_reg-WellFormed r = Ensures-gets _ (λ vm h. h.words r)

  pub put_reg-WellFormed : (r v : ℕ) → IsWord v → Keeps (WellFormed lowest size) (put_reg r v)
  unfolding put_reg
  put_reg-WellFormed r v w =
      Keeps-modify _ (λ vm h. assumption (update-fits vm.registers r v 64 h.words w))

  read_byte-WellFormed : (i : ℕ) → Ensures (WellFormed lowest size) (λ b. b < 2 ^ 8) (read_byte i)
  unfolding read_byte pure fault
  read_byte-WellFormed i = record {
    at = λ vm h. elim (Bool-cases (ltb i vm.allocated)) [
      | inl e ↦ rw e (h, h.bytes i)
      | inr e ↦ rw e tt
    ];
  }

  write_byte-WellFormed : (i b : ℕ) → b < 2 ^ 8 → Keeps (WellFormed lowest size) (write_byte i b)
  unfolding write_byte modify fault
  write_byte-WellFormed i b w = record {
    at = λ vm h. elim (Bool-cases (ltb i vm.allocated)) [
      | inl e ↦ rw e ((assumption (update-fits vm.memory i b 8 h.bytes w)), tt)
      | inr e ↦ rw e tt
    ];
  }

  pub write_bytes-WellFormed :
      (bs : List ℕ) (i : ℕ) → AreBytes bs → Keeps (WellFormed lowest size) (write_bytes bs i)
  unfolding write_bytes
  write_bytes-WellFormed [] i w = Ensures-pure tt tt
  write_bytes-WellFormed (b ∷ bs) i w =
      Ensures-bind _ _ (write_byte-WellFormed i b w.0)
        (λ _ _. write_bytes-WellFormed bs (i + 1) w.1)

  pub read_bytes-WellFormed :
      (n i : ℕ)
      → Ensures (WellFormed lowest size) (λ bs. AreBytes bs × (length bs ≡ n)) (read_bytes n i)
  unfolding read_bytes
  read_bytes-WellFormed zero i = Ensures-pure [] (tt, refl)
  read_bytes-WellFormed (suc n) i = Ensures-bind _ _ (read_byte-WellFormed i) λ b hb.
      Ensures-bind _ _ (read_bytes-WellFormed n (i + 1))
        λ bs hbs. Ensures-pure (b ∷ bs) ((hb, hbs.0), ap suc hbs.1)

  check_bounds-WellFormed :
      (span address : ℕ) → Keeps (WellFormed lowest size) (check_bounds span address)
  unfolding check_bounds
  check_bounds-WellFormed span address =
      Ensures-bind _ _ (Ensures-gets {Q = Any} _ (λ vm h. tt)) (λ b _. search ensures_rules)

  load-WellFormed :
      (span address : ℕ) (e : Endianness)
      → Ensures (WellFormed lowest size) (λ v. v < span_mod (suc span)) (load span address e)
  unfolding load
  load-WellFormed span address e = Ensures-bind _ _ (check_bounds-WellFormed span address) λ _ _.
      Ensures-bind _ _ (read_bytes-WellFormed (suc span) address) λ bs h.
        Ensures-pure _
          (rw (length-ordered, h.1) at (join_bytes-lt (ordered e bs) (AreBytes-ordered e bs h.0)))

  store-WellFormed :
      (span address value : ℕ) (e : Endianness)
      → Keeps (WellFormed lowest size) (store span address value e)
  unfolding store
  store-WellFormed span address value e =
      Ensures-bind _ _ (check_bounds-WellFormed span address) λ _ _.
        write_bytes-WellFormed _ address
          (AreBytes-ordered e _ (AreBytes-split_bytes (suc span) value))

  pub get-WellFormed :
      (address : ℕ) (s : Size) (e : Endianness)
      → Ensures (WellFormed lowest size) (λ v. v < span_mod (suc (span_of s))) (get address s e)
  get-WellFormed address s e = rw get-load (load-WellFormed (span_of s) address (order_of s e))

  pub set-WellFormed :
      (address value : ℕ) (s : Size) (e : Endianness)
      → Keeps (WellFormed lowest size) (set address value s e)
  set-WellFormed address value s e =
      rw set-store (store-WellFormed (span_of s) address value (order_of s e))

  pub get_word-WellFormed :
      (address : ℕ) (e : Endianness) → Ensures (WellFormed lowest size) IsWord (get_word address e)
  unfolding get_word
  get_word-WellFormed address e = load-WellFormed 7 address e
