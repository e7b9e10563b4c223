-- ===== src/Snapshot/Registers.antt =====
-- Writes and reads of the register block, `write_regs` and `get_regs` of src/gu_unwinder.c.
use libgunwinder.Base.{
  ℕ, ◌≡◌, ◌≢◌, refl, ◌∙◌, sym, ◌%◌, ◌^◌, ◌<◌, true, some, List, length, get_elem?, set,
  get_elem?-set_self, get_elem?-set_ne,
}
use libgunwinder.Snapshot.{StackInfo, get_regs, write_regs}

module _ (slots : List ℕ) (info : StackInfo) (block : List ℕ) (known : info.regs ≡ some block) where
  written :
      (regno val slot : ℕ)
      → get_elem? slots (regno % 2 ^ 32) ≡ some slot
      → write_regs slots info regno val ≡ (record info { regs = some (set block slot val) }, true)
  unfolding write_regs
  written regno val slot s = rw (write_regs, known, s) refl

  after_write :
      (block' : List ℕ) (other slot : ℕ)
      → get_elem? slots (other % 2 ^ 32) ≡ some slot
      → get_regs slots (record info { regs = some block' }) other ≡ get_elem? block' slot
  unfolding get_regs
  after_write block' other slot s = rw (get_regs, s) refl

  before_write :
      (other slot : ℕ)
      → get_elem? slots (other % 2 ^ 32) ≡ some slot
      → get_regs slots info other ≡ get_elem? block slot
  unfolding get_regs
  before_write other slot s = rw (get_regs, known, s) refl

  -- In a snapshot with a register block, writing a register whose slot lies in the block succeeds,
  -- the value is read back, and a register of another slot reads as before.
  pub get_regs-write_regs :
      (regno val slot other other_slot : ℕ)
      → get_elem? slots (regno % 2 ^ 32) ≡ some slot
      → slot < length block
      → get_elem? slots (other % 2 ^ 32) ≡ some other_slot
      → slot ≢ other_slot
      → ((write_regs slots info regno val).1 ≡ true)
        × (get_regs slots (write_regs slots info regno val).0 regno ≡ some val)
        × (get_regs slots (write_regs slots info regno val).0 other ≡ get_regs slots info other)
  get_regs-write_regs regno val slot other other_slot s inside o apart =
      rw (written regno val slot s) (
        refl,
        after_write (set block slot val) regno slot s ∙ get_elem?-set_self block slot val inside,
        after_write (set block slot val) other other_slot o
            ∙ get_elem?-set_ne block slot other_slot val apart
            ∙ sym (before_write other other_slot o),
      )
