-- ===== src/Kmalloc/Heap.antt =====
-- The heap and the frame allocator together: where the buckets lie, and which frames they have.
-- Heap/Give and Heap/Grow follow `malloc`, Heap/Take follows `free`, and Heap/Keeps has both; Heap/Data
-- and Heap/Blocks are about the bytes that the two write.
mod Give
mod Take
mod Grow
pub mod Whole
mod Data
pub mod Keeps
pub mod Blocks
use lkd.Prelude.{
  ℕ, zero, suc, ◌+◌, ◌*◌, ◌/◌, ◌%◌, ◌^◌, ◌≤◌, ◌<◌, List, [], ◌∷◌, Option, none, some, true, false,
  ◌==◌, if◌then◌else◌, ◌≡◌, ◌≢◌, ◌⊎◌, inl, inr, refl, ap, sym, ◌∙◌, arith,
}
use lkd.Memory.{Memory}
use lkd.Bitmap.{Bitmap, get_bit}
use lkd.Pmm.{Pmm}
use lkd.Pmm.Frames.{used}
use lkd.Kmalloc.{Bucket, new_bucket}
use lkd.Kmalloc.Layout.{bitmap_in_page}
use lkd.Kmalloc.Malloc.{Buckets}
use lkd.Kmalloc.Free.{bucket_at}

-- The page of a frame, in the kernel's half.
abbrev pub frame_page : ℕ → ℕ
frame_page f = 4096 * (0xC0000 + f)

-- The page at an address has no byte of the frame allocator's bitmap.
abbrev pub Apart : Pmm → ℕ → Type 0
Apart p address = (p.bm.ptr + p.bm.size ≤ address) ⊎ (address + 4096 ≤ p.bm.ptr)

-- A bucket as `allocate_bucket` makes it, for blocks of 16 to 2048 bytes, in a frame that is taken.
pub record Placed (p : Pmm) (m : Memory) (address : ℕ) (b : Bucket) : Type 0 where
  pub frame : ℕ
  pub power : ℕ
  pub above : 1 ≤ frame
  pub below : frame < p.nb_frames
  pub start : address ≡ frame_page frame
  pub large : 4 ≤ power
  pub small : power < 12
  pub made : b ≡ new_bucket address (2 ^ power)
  pub taken : used m p frame ≡ true
  pub apart : Apart p address

-- The buckets of the list, each in a page of its own.
abbrev pub IsPlaced : Pmm → Memory → Buckets → Type 0
IsPlaced p m [] = Unit {0}
IsPlaced p m ((address, b) ∷ rest) =
    Placed p m address b × (bucket_at rest address ≡ none) × IsPlaced p m rest

-- Each byte of the frame allocator's bitmap lies in a frame that is taken.
abbrev pub HasBitmap : Pmm → Memory → Type 0
HasBitmap p m =
    (a : ℕ)
    → p.bm.ptr ≤ a
    → a < p.bm.ptr + p.bm.size
    → (f : ℕ) × (used m p f ≡ true) × (frame_page f ≤ a) × (a < frame_page f + 4096)

pub record IsHeap (p : Pmm) (m : Memory) (bs : Buckets) : Type 0 where
  pub bitmap : HasBitmap p m
  pub placed : IsPlaced p m bs

-- The bits of a bitmap depend on its own bytes only.
pub get_bit_same :
    (m m' : Memory) (b : Bitmap)
    → ((a : ℕ) → b.ptr ≤ a → a < b.ptr + b.size → m' a ≡ m a)
    → (j : ℕ) → get_bit m' b j ≡ get_bit m b j
unfolding get_bit
get_bit_same m m' b same j = ground (arith, same (b.ptr + j / 8))

module _ (address : ℕ) (b : Bucket) (rest : Buckets) where
  bucket_at_first : bucket_at ((address, b) ∷ rest) address ≡ some b
  unfolding bucket_at
  bucket_at_first = ground arith

  some_bucket :
      (f : ℕ) → address ≡ frame_page f → bucket_at ((address, b) ∷ rest) (frame_page f) ≢ none
  unfolding bucket_at
  some_bucket f at e = ground (arith, e)

  bucket_at_later : (a : ℕ) → bucket_at rest a ≢ none → bucket_at ((address, b) ∷ rest) a ≢ none
  unfolding bucket_at
  bucket_at_later a there e = there (ground (arith, e))

module _ (p : Pmm) (m m' : Memory) where
  Placed-taken :
      {address : ℕ} {b : Bucket}
      → (here : Placed p m address b) → used m' p here.frame ≡ true
      → Placed p m' address b
  Placed-taken here taken = record {
    frame = here.frame;
    power = here.power;
    above = here.above;
    below = here.below;
    start = here.start;
    large = here.large;
    small = here.small;
    made = here.made;
    taken = taken;
    apart = here.apart;
  }

  -- The buckets stay in place as long as their frames are taken.
  pub IsPlaced-keeps :
      (bs : Buckets)
      → ((f : ℕ) → bucket_at bs (frame_page f) ≢ none → used m p f ≡ true → used m' p f ≡ true)
      → IsPlaced p m bs
      → IsPlaced p m' bs
  IsPlaced-keeps [] keeps placed = tt
  IsPlaced-keeps ((address, b) ∷ rest) keeps (here, own, others) = (
    Placed-taken here
        (keeps here.frame (λ e. some_bucket address b rest here.frame here.start e) here.taken),
    own,
    IsPlaced-keeps rest (λ f there. keeps f (bucket_at_later address b rest (frame_page f) there))
        others,
  )

  -- A heap stays one as long as no frame is given back.
  pub IsHeap-keeps :
      (bs : Buckets)
      → ((f : ℕ) → used m p f ≡ true → used m' p f ≡ true)
      → IsHeap p m bs
      → IsHeap p m' bs
  IsHeap-keeps bs keeps heap = record {
    bitmap =
        λ a lo hi. (let (f, taken, from, to) = heap.bitmap a lo hi in (f, keeps f taken, from, to));
    placed = IsPlaced-keeps bs (λ f there taken. keeps f taken) heap.placed;
  }

  -- A heap stays one where the frame allocator's bitmap is not written.
  pub IsHeap-same :
      (bs : Buckets)
      → ((a : ℕ) → p.bm.ptr ≤ a → a < p.bm.ptr + p.bm.size → m' a ≡ m a)
      → IsHeap p m bs
      → IsHeap p m' bs
  IsHeap-same bs same heap = IsHeap-keeps bs (λ f taken. get_bit_same m m' p.bm same f ∙ taken) heap

-- The bitmap of a bucket lies in the bucket's page.
pub Placed-bitmap :
    {p : Pmm} {m : Memory} {address : ℕ} {b : Bucket}
    → Placed p m address b
    → (address ≤ b.bitmap.ptr) × (b.bitmap.ptr + b.bitmap.size ≤ address + 4096)
Placed-bitmap {p} {m} {address} {b} here =
    let (ptr, size) = bitmap_in_page here.power (0xC0000 + here.frame) here.large here.small in
    let own : b ≡ new_bucket (frame_page here.frame) (2 ^ here.power) =
      here.made ∙ ap (λ a. new_bucket a (2 ^ here.power)) here.start in
    omega (
      arith,
      ptr,
      size,
      here.start,
      ap (λ (c : Bucket). c.bitmap.ptr) own,
      ap (λ (c : Bucket). c.bitmap.size) own,
    )
