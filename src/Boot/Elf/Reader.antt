-- ===== src/Boot/Elf/Reader.antt =====
-- Files as the loader reads them: a position is set and a number of bytes is read, or the boot manager stops.
use dragon_ware.Base.{ℕ, ◌≡◌, List, Option, some}
use dragon_ware.Base.Segments.{segment}

-- `rewind` sets `cursor` and `ended` to the start of the file, and `read` is ReadFromFile after `cursor` is set. A read inside the file gives the file's bytes.
pub record FileReader : Type 1 where
  pub State : Type 0
  pub rewind : State → State
  pub read : State → ℕ → ℕ → Option (List ℕ × State)
  pub IsOpen : State → Type 0
  pub Inside : ℕ → ℕ → Type 0
  pub content : ℕ → ℕ
  pub rewound : (f : State) → IsOpen f → IsOpen (rewind f)
  pub reads :
      (f f' : State) (cursor n : ℕ) (bytes : List ℕ)
      → IsOpen f
      → Inside cursor n
      → read f cursor n ≡ some (bytes, f')
      → (bytes ≡ segment content cursor n) × IsOpen f'
