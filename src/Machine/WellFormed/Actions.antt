-- ===== src/Machine/WellFormed/Actions.antt =====
-- Translation, the history, the flags, the jumps and the interrupts keep the invariant.
use why.Base.{
  ℕ, zero, suc, ◌+◌, ◌^◌, ◌≤◌, ◌<◌, Bool, true, false, Option, none, some, List, [], ◌∷◌, ◌++◌,
  length, length-append, length-take, IsWord, arith, ◌==◌, if◌then◌else◌, add64, extend32,
}
use why.Machine.Types.{Size, Endianness, Change, get_next}
use why.Machine.Reg
use why.Machine.State.{Vm, M, pure, gets, modify, ◌>>=◌}
use why.Machine.Paging.{
  table_entry, walk, dump_entries, translate_page, after_walk, translate_virtual, translate_address,
}
use why.Machine.History.{
  stop, memory_change_to, register_change_to, jump_change_to, interrupt_table_change_to,
  finish_change, commit, kept_entries, buffer_change, record_change,
}
use why.Machine.Control.{
  flags_of, update_flags, check_conditions, set_reg, link, jump, increment, wake_rest, rest, halt,
}
use why.Machine.Ensures.{
  Ensures, Keeps, Any, Ensures-gets, Ensures-if, Keeps-modify, Ensures-pure, Ensures-bind,
  ensures_rules,
}
use why.Machine.WellFormed.{WellFormed}
use why.Machine.WellFormed.Accessors.{
  get_reg-WellFormed, put_reg-WellFormed, get-WellFormed, get_word-WellFormed,
}

add64-IsWord : (a b : ℕ) → IsWord (add64 a b)
add64-IsWord a b = omega arith

pub extend32-IsWord : (h : ℕ) → h < 2 ^ 32 → IsWord (extend32 h)
extend32-IsWord h w = ground arith

flags_of-IsWord : (v : ℕ) → IsWord (flags_of v)
unfolding flags_of
flags_of-IsWord v = ground arith

-- The table that the walk ended at.
abbrev SomeWord : Option ℕ → Type 0
SomeWord none = Unit
SomeWord (some a) = IsWord a

module _ {lowest size : ℕ} where
  pub ask-WellFormed : {A : Type 0} (f : Vm → A) → Keeps (WellFormed lowest size) (gets f)
  ask-WellFormed f = Ensures-gets f (λ vm h. tt)

  table_entry-WellFormed :
      (table level address : ℕ)
      → Ensures (WellFormed lowest size) IsWord (table_entry table level address)
  unfolding table_entry
  table_entry-WellFormed table level address = get_word-WellFormed _ Endianness.little

  walk-WellFormed :
      (left level table address : ℕ)
      → IsWord table
      → Ensures (WellFormed lowest size) SomeWord (walk left level table address)
  unfolding walk
  walk-WellFormed zero level table address w = Ensures-pure _ w
  walk-WellFormed (suc left) level table address w =
      Ensures-bind _ _ (table_entry-WellFormed table level address) λ entry h.
        let rest =
          walk-WellFormed left (level + 1) (get_next entry) address
            (unfold get_next in omega arith) in
        search (ensures_rules, rest)

  dump_entries-WellFormed :
      (left i table : ℕ) → Keeps (WellFormed lowest size) (dump_entries left i table)
  unfolding dump_entries
  dump_entries-WellFormed zero i table = Ensures-pure tt tt
  dump_entries-WellFormed (suc left) i table =
      Ensures-bind _ _ (get_word-WellFormed _ Endianness.little)
        (λ _ _. dump_entries-WellFormed left (i + 1) table)

  translate_page-WellFormed :
      (table address : ℕ)
      → Ensures (WellFormed lowest size) (λ r. IsWord r.0) (translate_page table address)
  unfolding translate_page
  translate_page-WellFormed table address =
      Ensures-bind _ _ (table_entry-WellFormed table 5 address) λ entry h.
        Ensures-bind {Q = Any} _ _ (search (ensures_rules, dump_entries-WellFormed)) λ _ _.
          Ensures-bind _ _ (Keeps-modify _ (λ vm v. assumption))
            λ _ _. Ensures-pure _ (add64-IsWord _ _)

  after_walk-WellFormed :
      (table : Option ℕ) (address : ℕ)
      → Ensures (WellFormed lowest size) (λ r. IsWord r.0) (after_walk table address)
  unfolding after_walk
  after_walk-WellFormed none address = Ensures-pure _ (omega arith)
  after_walk-WellFormed (some table) address = translate_page-WellFormed table address

  pub translate_address-WellFormed :
      (address : ℕ)
      → IsWord address
      → Ensures (WellFormed lowest size) (λ r. IsWord r.0) (translate_address address)
  unfolding translate_address translate_virtual
  translate_address-WellFormed address w = Ensures-bind _ _ (ask-WellFormed _) λ on _.
      Ensures-if on _ _
        (λ _. Ensures-bind _ _ (Keeps-modify _ (λ vm v. assumption w)) (λ _ _. rooted))
        (λ _. Ensures-pure _ w)
    where
      walks :
          (root : ℕ)
          → IsWord root
          → Ensures
              (WellFormed lowest size)
              (λ r. IsWord r.0)
              (walk 5 0 root address >>= λ t. after_walk t address)
      walks root h =
          Ensures-bind _ _ (walk-WellFormed 5 0 root address h)
            (λ t _. after_walk-WellFormed t address)

      rooted :
          Ensures
            (WellFormed lowest size)
            (λ r. IsWord r.0)
            (gets (λ vm. vm.p0) >>= λ root.
              if root == 0
              then pure (0, false)
              else (walk 5 0 root address >>= λ t. after_walk t address))
      rooted = Ensures-bind _ _ (Ensures-gets _ (λ vm v. v.p0_fits)) λ root h.
          Ensures-if (root == 0) _ _ (λ _. Ensures-pure _ (omega arith)) (λ _. walks root h)

  commit-WellFormed :
      (cs : List Change) (vm : Vm)
      → WellFormed lowest size vm
      → WellFormed lowest size (commit cs vm)
  unfolding commit kept_entries
  commit-WellFormed [] vm v = v
  commit-WellFormed (c ∷ cs) vm v = assumption kept
    where
      kept : vm.undo_pointer + 1 ≤ length (kept_entries vm ++ (c ∷ cs) ∷ [])
      kept = ground (
        arith,
        v.pointer_fits,
        length-append (kept_entries vm) ((c ∷ cs) ∷ []),
        length-take vm.undo_pointer vm.undo_stack,
      )

  if_enabled :
      (b : Bool) (f vm : Vm)
      → WellFormed lowest size f
      → WellFormed lowest size vm
      → WellFormed lowest size (if b then f else vm)
  if_enabled true f vm u v = u
  if_enabled false f vm u v = v

  finish_change-WellFormed : Keeps (WellFormed lowest size) finish_change
  unfolding finish_change
  finish_change-WellFormed =
      Keeps-modify _
        λ vm v. if_enabled vm.enable_history _ vm (commit-WellFormed vm.change_buffer vm v) v

  buffer-WellFormed :
      (c : Change)
      → Keeps
          (WellFormed lowest size)
          (modify (λ vm. record vm { change_buffer = vm.change_buffer ++ c ∷ [] }))
  buffer-WellFormed c = Keeps-modify _ (λ vm v. assumption)

  pub buffer_change-WellFormed :
      (make : M Change)
      → Keeps (WellFormed lowest size) make
      → Keeps (WellFormed lowest size) (buffer_change make)
  unfolding buffer_change
  buffer_change-WellFormed make k = Ensures-bind _ _ (ask-WellFormed _) λ enabled _.
      Ensures-if enabled _ _ (λ _. Ensures-bind _ _ k (λ c _. buffer-WellFormed c))
        (λ _. Ensures-pure tt tt)

  pub record_change-WellFormed :
      (make : M Change)
      → Keeps (WellFormed lowest size) make
      → Keeps (WellFormed lowest size) (record_change make)
  unfolding record_change
  record_change-WellFormed make k = Ensures-bind _ _ (ask-WellFormed _) λ enabled _.
      Ensures-if enabled _ _
        (λ _.
          Ensures-bind _ _ k
            (λ c _. Ensures-bind _ _ (buffer-WellFormed c) (λ _ _. finish_change-WellFormed)))
        (λ _. Ensures-pure tt tt)

  pub memory_change_to-WellFormed :
      (address to : ℕ) (s : Size) → Keeps (WellFormed lowest size) (memory_change_to address to s)
  unfolding memory_change_to
  memory_change_to-WellFormed address to s =
      Ensures-bind _ _ (get-WellFormed address s Endianness.little) (λ _ _. Ensures-pure _ tt)

  pub register_change_to-WellFormed :
      (reg to : ℕ) → Keeps (WellFormed lowest size) (register_change_to reg to)
  unfolding register_change_to
  register_change_to-WellFormed reg to = ask-WellFormed _

  jump_change_to-WellFormed :
      (to : ℕ) (linked : Bool) → Keeps (WellFormed lowest size) (jump_change_to to linked)
  unfolding jump_change_to
  jump_change_to-WellFormed to linked = ask-WellFormed _

  pub interrupt_table_change_to-WellFormed :
      (to : ℕ) → Keeps (WellFormed lowest size) (interrupt_table_change_to to)
  unfolding interrupt_table_change_to
  interrupt_table_change_to-WellFormed to = ask-WellFormed _

  pub stop-WellFormed : Keeps (WellFormed lowest size) stop
  unfolding stop
  stop-WellFormed = Keeps-modify _ (λ vm v. assumption)

  pub halt-WellFormed : Keeps (WellFormed lowest size) halt
  unfolding halt
  halt-WellFormed =
      Ensures-bind _ _ (record_change-WellFormed _ (Ensures-pure _ tt)) (λ _ _. stop-WellFormed)

  pub update_flags-WellFormed : (v : ℕ) → Keeps (WellFormed lowest size) (update_flags v)
  unfolding update_flags
  update_flags-WellFormed v = put_reg-WellFormed Reg.status _ (flags_of-IsWord v)

  pub check_conditions-WellFormed : (c : ℕ) → Keeps (WellFormed lowest size) (check_conditions c)
  unfolding check_conditions
  check_conditions-WellFormed c =
      Ensures-bind _ _ (get_reg-WellFormed Reg.status) (λ st _. search (ensures_rules, tt) depth 12)

  pub set_reg-WellFormed :
      (rd v : ℕ) (flags : Bool) → IsWord v → Keeps (WellFormed lowest size) (set_reg rd v flags)
  unfolding set_reg
  set_reg-WellFormed rd v flags w =
      Ensures-bind _ _ (buffer_change-WellFormed _ (register_change_to-WellFormed rd v)) λ _ _.
        Ensures-bind _ _ (put_reg-WellFormed rd v w)
          λ _ _. Ensures-if flags _ _ (λ _. update_flags-WellFormed v) (λ _. Ensures-pure tt tt)

  link-WellFormed : (recorded : Bool) → Keeps (WellFormed lowest size) (link recorded)
  unfolding link
  link-WellFormed recorded = Ensures-bind _ _ (ask-WellFormed _) λ pc _.
      Ensures-bind {Q = Any} _ _
        (Ensures-if recorded _ _
          (λ _. record_change-WellFormed _ (register_change_to-WellFormed _ _))
          (λ _. Ensures-pure tt tt))
        λ _ _. put_reg-WellFormed _ _ (add64-IsWord pc 8)

  set_pc-WellFormed :
      (a : ℕ)
      → IsWord a
      → Keeps (WellFormed lowest size) (modify (λ vm. record vm { program_counter = a }))
  set_pc-WellFormed a w = Keeps-modify _ (λ vm v. assumption w)

  pub jump-WellFormed :
      (address : ℕ) (linked : Bool)
      → IsWord address
      → Keeps (WellFormed lowest size) (jump address linked)
  unfolding jump
  jump-WellFormed address linked w =
      Ensures-bind {Q = Any} _ _
        (Ensures-if linked _ _ (λ _. link-WellFormed false) (λ _. Ensures-pure tt tt))
        λ _ _.
          Ensures-bind _ _ (record_change-WellFormed _ (jump_change_to-WellFormed address linked))
            λ _ _. set_pc-WellFormed address w

  pub increment-WellFormed : Keeps (WellFormed lowest size) increment
  unfolding increment
  increment-WellFormed = Ensures-bind _ _ (ask-WellFormed _) λ pc _.
      Ensures-bind _ _ (record_change-WellFormed _ (jump_change_to-WellFormed _ false))
        λ _ _. set_pc-WellFormed _ (add64-IsWord pc 8)

  pub wake_rest-WellFormed : Keeps (WellFormed lowest size) wake_rest
  unfolding wake_rest
  wake_rest-WellFormed = Keeps-modify _ (λ vm v. assumption)

  pub rest-WellFormed : Keeps (WellFormed lowest size) rest
  unfolding rest
  rest-WellFormed = Keeps-modify _ (λ vm v. assumption)
