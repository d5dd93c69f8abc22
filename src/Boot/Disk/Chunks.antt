-- ===== src/Boot/Disk/Chunks.antt =====
-- A read in chunks through the low buffer.
use dragon_ware.Base.{
  ℕ, zero, suc, ◌+◌, ◌-◌, ◌*◌, ◌/◌, ◌%◌, ◌^◌, ◌≤◌, ◌<◌, ◌≡◌, refl, ap, sym, ◌∙◌, ◌≢◌, inl, inr,
  Bool-cases, true, Option-cases, List, [], ◌∷◌, ◌++◌, none, some, arith, leb, ltb, get_or, ◌==◌,
  min, take, length, length-append,
}
use dragon_ware.Base.Segments.{take_all}
use dragon_ware.Base.Words.{two64, two32, add32}
use dragon_ware.Status.{Status}
use dragon_ware.Boot.Elf.Memory.{store, store_lem}
use dragon_ware.Boot.Disk.{
  Firmware, frame_size, read_from_disk_lomem, get_sector_size_for_drive, read_chunks,
  read_from_disk,
}

-- The bytes of `n` sectors from a block address on, by the bytes of each.
abbrev pub contents : (ℕ → List ℕ) → ℕ → ℕ → List ℕ
contents content lba zero = []
contents content lba (suc n) = content lba ++ contents content (lba + 1) n

-- What the BIOS says of a drive whose sectors hold `content`: the size of a sector, 512 to 4096 bytes;
-- and a read of at most 127 sectors, which is the most one call is documented to take, fails or gives
-- these sectors.
pub record Sectors (fw : Firmware) (drive size : ℕ) (content : ℕ → List ℕ) : Type 0 where
  pub sized : get_sector_size_for_drive fw (drive % 256) ≡ size
  pub at_least : 512 ≤ size
  pub in_frame : size ≤ frame_size
  pub whole : (lba : ℕ) → length (content lba) ≡ size
  pub gives :
      (lba n : ℕ) (bytes : List ℕ)
      → n ≤ 127
      → fw.extended_read (drive % 256) lba n ≡ some bytes
      → bytes ≡ contents content lba n

append_assoc : (xs ys zs : List ℕ) → (xs ++ ys) ++ zs ≡ xs ++ (ys ++ zs)
append_assoc [] ys zs = refl
append_assoc (x ∷ xs) ys zs = ap (λ t. x ∷ t) (append_assoc xs ys zs)

get_or_before : (xs ys : List ℕ) (k : ℕ) → k < length xs → get_or (xs ++ ys) k 0 ≡ get_or xs k 0
get_or_before [] ys k lt = absurd (omega arith)
get_or_before (x ∷ xs) ys zero lt = refl
get_or_before (x ∷ xs) ys (suc k) lt = get_or_before xs ys k (omega arith)

get_or_behind :
    (xs ys : List ℕ) (k : ℕ) → length xs ≤ k → get_or (xs ++ ys) k 0 ≡ get_or ys (k - length xs) 0
get_or_behind [] ys k le = ground arith
get_or_behind (x ∷ xs) ys zero le = absurd (omega arith)
get_or_behind (x ∷ xs) ys (suc k) le =
    let e : suc k - suc (length xs) ≡ k - length xs = omega arith in
    rw e (get_or_behind xs ys k (omega arith))

store-append :
    (m : ℕ → ℕ) (at : ℕ) (xs ys : List ℕ) (a : ℕ)
    → store (store m at xs) (at + length xs) ys a ≡ store m at (xs ++ ys) a
store-append m at xs ys a =
    let l = length-append xs ys in
    let all = store_lem m at (xs ++ ys) a in
    let more = store_lem (store m at xs) (at + length xs) ys a in
    let first = store_lem m at xs a in
    elim (Bool-cases (ltb (a - at) (length xs))) [
      | inl here ↦
          let e = get_or_before xs ys (a - at) (ground arith) in
          ground (arith, l, all, more, first, e)
      | inr behind ↦
          let e = get_or_behind xs ys (a - at) (ground arith) in
          let d : a - at - length xs ≡ a - (at + length xs) = omega arith in
          ground (arith, l, all, more, first, e, d)
    ]

module _ (content : ℕ → List ℕ) where
  contents-append :
      (lba n k : ℕ)
      → contents content lba (n + k) ≡ contents content lba n ++ contents content (lba + n) k
  contents-append lba zero k = ground arith
  contents-append lba (suc n) k =
      let e : suc n + k ≡ suc (n + k) = omega arith in
      let e' : lba + suc n ≡ lba + 1 + n = omega arith in
      rw (e, e', contents-append (lba + 1) n k) (sym (append_assoc (content lba) _ _))

  length-contents :
      (size lba n : ℕ)
      → ((l : ℕ) → length (content l) ≡ size)
      → length (contents content lba n) ≡ n * size
  length-contents size lba zero whole = omega arith
  length-contents size lba (suc n) whole =
      let e : suc n * size ≡ size + n * size = grind arith in
      rw
        (
          length-append (content lba) (contents content (lba + 1) n),
          whole lba,
          length-contents size (lba + 1) n whole,
          e,
        )
        refl

  joined :
      (lba c k n addr size : ℕ) (m : ℕ → ℕ)
      → ((l : ℕ) → length (content l) ≡ size)
      → c + k ≡ n
      → (a : ℕ)
      → store
          (store m addr (contents content lba c))
          (addr + c * size)
          (contents content (lba + c) k)
          a
        ≡ store m addr (contents content lba n) a
  joined lba c k n addr size m whole e a =
      rw (← e, contents-append lba c k, ← length-contents size lba c whole)
        (store-append m addr (contents content lba c) (contents content (lba + c) k) a)

module _ (fw : Firmware) (drive : ℕ) (content : ℕ → List ℕ) (max : ℕ) where
  -- The results of a read of `n` sectors to `addr` in calls of at most `max` sectors: all are read, and
  -- stored one behind the other; or a call for some of them fails, and those before it are stored.
  pub data Reads (lba n addr : ℕ) (m : ℕ → ℕ) : Status × (ℕ → ℕ) → Type 0 where
    reads :
        (out : ℕ → ℕ)
        → ((a : ℕ) → out a ≡ store m addr (contents content lba n) a)
        → Reads lba n addr m (Status.ok, out)
    fails :
        (k : ℕ) (out : ℕ → ℕ)
        → k < n
        → fw.extended_read (drive % 256) (lba + k) (min (n - k) max) ≡ none
        → ((a : ℕ) → out a ≡ store m addr (contents content lba k) a)
        → Reads lba n addr m (Status.bad, out)

  Reads-step :
      (lba n c addr size : ℕ) (m : ℕ → ℕ) (out : Status × (ℕ → ℕ))
      → c ≤ n
      → ((l : ℕ) → length (content l) ≡ size)
      → Reads (lba + c) (n - c) (addr + c * size) (store m addr (contents content lba c)) out
      → Reads lba n addr m out
  Reads-step lba n c addr size m out le whole (Reads.reads o h) =
      Reads.reads o (λ a. h a ∙ joined content lba c (n - c) n addr size m whole (omega arith) a)
  Reads-step lba n c addr size m out le whole (Reads.fails k o lt e h) =
      let at : lba + c + k ≡ lba + (c + k) = omega arith in
      let left : n - c - k ≡ n - (c + k) = omega arith in
      Reads.fails (c + k) o (omega arith) (rw (← at, ← left) e)
        (λ a. h a ∙ joined content lba c k (c + k) addr size m whole refl a)

split_product : (n c size : ℕ) → c ≤ n → n * size ≡ c * size + (n - c) * size
split_product n c size le =
    let e : n ≡ c + (n - c) = omega arith in
    let d : (c + (n - c)) * size ≡ c * size + (n - c) * size = grind arith in
    ap (λ (k : ℕ). k * size) e ∙ d

-- A frame holds one to eight such sectors.
fits : (size : ℕ) → 512 ≤ size → size ≤ frame_size → (0 < frame_size / size)
fits size at_least in_frame = grind arith

few_fit : (size : ℕ) → 512 ≤ size → frame_size / size ≤ 127
few_fit size at_least = grind arith

module _ (fw : Firmware) (drive size : ℕ) (content : ℕ → List ℕ)
    (s : Sectors fw drive size content) where
  chunk :
      (lba n : ℕ) {bytes : List ℕ}
      → fw.extended_read (drive % 256) lba n ≡ some bytes
      → n ≤ 127
      → take (n * size) bytes ≡ contents content lba n
  chunk lba n {bytes} got few =
      let e = s.gives lba n bytes few got in
      rw e
        (take_all (contents content lba n) (n * size) (length-contents content size lba n s.whole))

  module _ (max : ℕ) (positive : 0 < max) (few : max ≤ 127) where
    -- One round.
    read_chunks_none :
        (fuel lba addr : ℕ) (m : ℕ → ℕ)
        → read_chunks fuel fw drive size max lba 0 addr m ≡ (Status.ok, m)
    unfolding read_chunks
    read_chunks_none zero lba addr m = refl
    read_chunks_none (suc fuel) lba addr m = refl

    read_chunks_bad :
        (fuel lba n addr : ℕ) (m : ℕ → ℕ)
        → n ≢ 0
        → fw.extended_read (drive % 256) lba (min n max) ≡ none
        → read_chunks (suc fuel) fw drive size max lba n addr m ≡ (Status.bad, m)
    unfolding read_chunks read_from_disk_lomem
    read_chunks_bad fuel lba n addr m more no_read =
        let e : min n max % 2 ^ 16 ≡ min n max = omega arith in ground arith

    read_chunks_step :
        (fuel lba n addr : ℕ) (m : ℕ → ℕ) {bytes : List ℕ}
        → n ≢ 0
        → fw.extended_read (drive % 256) lba (min n max) ≡ some bytes
        → read_chunks (suc fuel) fw drive size max lba n addr m
          ≡ read_chunks fuel fw drive size max
              ((lba + min n max) % two64)
              (n - min n max)
              (add32 addr (min n max * size))
              (store m addr (take (min n max * size) bytes))
    unfolding read_chunks read_from_disk_lomem
    read_chunks_step fuel lba n addr m more got =
        let e : min n max % 2 ^ 16 ≡ min n max = omega arith in ground arith

    read_chunks-Reads :
        (fuel lba n addr : ℕ) (m : ℕ → ℕ)
        → n ≤ fuel
        → lba + n < two64
        → addr + n * size < two32
        → Reads fw drive content max lba n addr m (read_chunks fuel fw drive size max lba n addr m)
    unfolding store
    read_chunks-Reads zero lba n addr m enough below room =
        let e : n ≡ 0 = omega arith in
        rw (e, read_chunks_none 0 lba addr m) (Reads.reads m (λ a. refl))
    read_chunks-Reads (suc fuel) lba n addr m enough below room = elim (Bool-cases (n == 0)) [
      | inl none_left ↦
          let e : n ≡ 0 = ground arith in
          rw (e, read_chunks_none (suc fuel) lba addr m) (Reads.reads m (λ a. refl))
      | inr more ↦
          let ne : n ≢ 0 = ground arith in
          elim (Option-cases (fw.extended_read (drive % 256) lba (min n max))) [
            | inl no_read ↦ rw (read_chunks_bad fuel lba n addr m ne no_read) (
                Reads.fails 0 m (omega arith)
                  (let e : lba + 0 ≡ lba = omega arith in
                    let e' : n - 0 ≡ n = omega arith in rw (e, e') no_read)
                  (λ a. refl))
            | inr (bytes, got) ↦
                let c = min n max in
                let fine : c ≤ n = omega arith in
                let whole_part : n * size ≡ c * size + (n - c) * size =
                  split_product n c size fine in
                let lba_at : (lba + c) % two64 ≡ lba + c = omega arith in
                let addr_at : add32 addr (c * size) ≡ addr + c * size = omega arith in
                rw
                  (
                    read_chunks_step fuel lba n addr m ne got,
                    chunk lba c got (omega arith),
                    lba_at,
                    addr_at,
                  )
                  (Reads-step fw drive content max lba n c addr size m _ fine s.whole (
                    read_chunks-Reads fuel (lba + c) (n - c) (addr + c * size) _ (omega arith)
                      (omega arith) (omega arith)))
          ]
    ]

  -- ReadFromDisk of `n` sectors to memory at 1 MiB or above, up to the last block address and below 4 GiB,
  -- of a drive with sectors of 512 to 4096 bytes: it says STATUS_OK, and the sectors' bytes are stored
  -- from the address on, one sector behind the other, and the other memory is kept; or it says
  -- STATUS_BAD, and the BIOS failed at the next sectors, as many of them as fit in a frame and are left,
  -- and the bytes of the sectors before these are stored and the other memory is kept.
  pub read_from_disk-Reads :
      (lba n dest : ℕ) (m : ℕ → ℕ)
      → 0x100000 ≤ dest
      → lba + n < two64
      → dest + n * size < two32
      → Reads fw drive content
          (frame_size / size)
          lba
          n
          dest
          m
          (read_from_disk fw drive lba n dest m)
  unfolding read_from_disk
  read_from_disk-Reads lba n dest m high below room =
      let h : leb 0x100000 dest ≡ true = ground arith in
      rw (h, s.sized)
        (read_chunks-Reads (frame_size / size) (fits size s.at_least s.in_frame)
          (few_fit size s.at_least) n lba n dest m (omega arith) below room)
