-- ===== src/Kmalloc/Tests.antt =====
-- The heap's theorems at concrete requests and blocks.
use lkd.Prelude.{
  ◌⊎◌, [], ◌∷◌, ◌==◌, if◌then◌else◌, ℕ, ◌+◌, ◌*◌, ◌/◌, ◌^◌, ◌≤◌, ◌<◌, some, ◌≡◌, refl, arith, zero,
  suc, true, false, inl, Option, none, ap,
}
use mathlib.Core.Path.{subst}
use lkd.Memory.{Memory}
use lkd.Bitmap.{get_bit, bitmap}
use lkd.Pmm.{Pmm, null}
use lkd.Kmalloc.Realloc.{calloc, calloc_lem}
use lkd.Kmalloc.{
  Bucket, compute_power, compute_power_from, align, bitmap_offset, page_begin, bitmap_size,
  new_bucket, sizeof_bucket,
}
use lkd.Kmalloc.Added.{Added}
use lkd.Kmalloc.Malloc.{Buckets, malloc}
use lkd.Kmalloc.Grants.{AllTaken, Malloced, malloc-Malloced}
use lkd.Kmalloc.Free.{bucket_at, free}
use lkd.Kmalloc.Heap.{IsHeap}
use lkd.Kmalloc.Heap.Keeps.{malloc-IsHeap, free-IsHeap}
use lkd.Kmalloc.Heap.Blocks.{IsData, malloc_keeps_blocks, free_keeps_blocks}
use lkd.Pmm.Frames.{used}
use lkd.Kmalloc.Restored.{IsWhole, Restored, malloc-Restored}
use lkd.Kmalloc.Power.{Least}
use lkd.Kmalloc.Layout.{block_in_page, blocks_apart}

compute_power_100 : compute_power 28 100 ≡ some 128
unfolding compute_power compute_power_from
compute_power_100 = refl

align_page : align 4116 4096 ≡ 8192
unfolding align
align_page = refl

-- A page of the kernel's half.
abbrev page : ℕ
page = 0xC0200

first_block : bitmap_offset (new_bucket (4096 * page) 32) 0 ≡ 0xC020001C
unfolding bitmap_offset new_bucket align bitmap_size bitmap
first_block = refl

slot_in_range : 3 < (new_bucket (4096 * page) (2 ^ 5)).bitmap.size
unfolding new_bucket align bitmap_size bitmap
slot_in_range = omega arith

block_in_page_example :
    (4096 * page + sizeof_bucket + ((new_bucket (4096 * page) (2 ^ 5)).bitmap.size + 7) / 8
      ≤ bitmap_offset (new_bucket (4096 * page) (2 ^ 5)) 3)
    × (bitmap_offset (new_bucket (4096 * page) (2 ^ 5)) 3 + 2 ^ 5 ≤ 4096 * page + 4096)
    × (page_begin (bitmap_offset (new_bucket (4096 * page) (2 ^ 5)) 3) 4096 ≡ 4096 * page)
block_in_page_example =
    block_in_page 5 (omega arith) (omega arith) page 3 (omega arith) slot_in_range

blocks_apart_example :
    bitmap_offset (new_bucket (4096 * page) (2 ^ 5)) 1 + 2 ^ 5
    ≤ bitmap_offset (new_bucket (4096 * page) (2 ^ 5)) 3
blocks_apart_example =
    blocks_apart 5 page 1 3 (omega arith) (omega arith) (omega arith) (omega arith) slot_in_range

abbrev pmm : Pmm
pmm = record { nb_frames = 32; bm = record { ptr = 100; size = 4 } }

abbrev memory : Memory
memory a = if a == 0xC0200014 then 9 else 0

abbrev buckets : Buckets
buckets = (4096 * page, new_bucket (4096 * page) (2 ^ 5)) ∷ []

bucket_found : bucket_at buckets (4096 * page) ≡ some (new_bucket (4096 * page) (2 ^ 5))
unfolding bucket_at
bucket_found = refl

malloc-Malloced_example :
    (k : ℕ) × Least 20 k × Malloced pmm memory buckets 20 (2 ^ k) (malloc pmm 28 memory buckets 20)
malloc-Malloced_example = malloc-Malloced pmm memory buckets 20 (omega arith)

buckets-IsWhole : IsWhole buckets
unfolding new_bucket
buckets-IsWhole zero address b at =
    let first : ℕ × Bucket = (4096 * page, new_bucket (4096 * page) (2 ^ 5)) in
    subst
      (λ (x : ℕ × Bucket).
        (n : ℕ) × (1 ≤ n)
        × (n < 2 ^ 20)
        × (x.0 ≡ 4096 * n)
        × (x.1 ≡ new_bucket (4096 * n) x.1.power_size)
        × (bucket_at buckets (4096 * n) ≡ some x.1))
      (ap (λ (o : Option (ℕ × Bucket)). elim o [ none ↦ first | some x ↦ x ]) at)
      (page, omega arith, omega arith, refl, refl, bucket_found)
buckets-IsWhole (suc n) address b at = absurd (ground (arith, at))

malloc-Restored_example :
    (k : ℕ) × Least 20 k
    × ((AllTaken memory (2 ^ k) buckets
          × (r : ℕ × Buckets × Memory) × (malloc pmm 28 memory buckets 20 ≡ some r)
          × Added pmm memory buckets (2 ^ k) r)
        ⊎ ((block : ℕ) × (m' : Memory) × (malloc pmm 28 memory buckets 20
              ≡ some (block, buckets, m'))
            × Restored pmm memory buckets block m'))
malloc-Restored_example =
    malloc-Restored pmm memory buckets 20 buckets-IsWhole (omega arith) (omega arith)

calloc_lem_example :
    (r : ℕ × Buckets × Memory) × (calloc pmm 28 memory buckets 3 8 ≡ some r)
    × ((r.0 ≡ null) ⊎ (2 ^ 32 < r.0 + 3 * 8) ⊎ ((a : ℕ) → r.0 ≤ a → a < r.0 + 3 * 8 → r.2 a ≡ 0))
calloc_lem_example = calloc_lem pmm memory buckets 3 8 (omega arith)

-- A heap of one bucket, in frame 2; the bits of the frames are in frame 1.
abbrev few_frames : Pmm
few_frames = record { nb_frames = 8; bm = record { ptr = 0xC0001000; size = 1 } }

abbrev two_taken : Memory
two_taken a = if a == 0xC0001000 then 6 else 0

abbrev one_bucket : Buckets
one_bucket = (0xC0002000, new_bucket 0xC0002000 (2 ^ 5)) ∷ []

two_taken_1 : used two_taken few_frames 1 ≡ true
unfolding get_bit
two_taken_1 = refl

two_taken_2 : used two_taken few_frames 2 ≡ true
unfolding get_bit
two_taken_2 = refl

free_3 : used two_taken few_frames 3 ≡ false
unfolding get_bit
free_3 = refl

one_bucket-IsHeap : IsHeap few_frames two_taken one_bucket
unfolding bucket_at
one_bucket-IsHeap = record {
  bitmap = λ a lo hi. (1, two_taken_1, omega arith, omega arith);
  placed = (
    record {
      frame = 2;
      power = 5;
      above = omega arith;
      below = omega arith;
      start = refl;
      large = omega arith;
      small = omega arith;
      made = refl;
      taken = two_taken_2;
      apart = inl (omega arith);
    },
    refl,
    tt,
  );
}

malloc-IsHeap_example :
    (r : ℕ × Buckets × Memory) × (malloc few_frames 28 two_taken one_bucket 20 ≡ some r)
    × IsHeap few_frames r.2 r.1
malloc-IsHeap_example =
    malloc-IsHeap few_frames (omega arith) two_taken one_bucket one_bucket-IsHeap 20
      (record { covered = omega arith; addressable = omega arith }) (omega arith)
      (3, omega arith, omega arith, free_3)

in_page : bucket_at one_bucket (page_begin 0xC000201C 0x1000) ≡ some (new_bucket 0xC0002000 (2 ^ 5))
unfolding bucket_at page_begin
in_page = refl

free-IsHeap_example :
    (r : Buckets × Memory) × (free few_frames two_taken one_bucket 0xC000201C ≡ some r)
    × IsHeap few_frames r.1 r.0
free-IsHeap_example =
    free-IsHeap few_frames (omega arith) two_taken one_bucket one_bucket-IsHeap 0xC000201C
      (new_bucket 0xC0002000 (2 ^ 5)) in_page

malloc_keeps_blocks_example :
    (r : ℕ × Buckets × Memory) × (malloc few_frames 28 two_taken one_bucket 20 ≡ some r)
    × ((a : ℕ) → IsData one_bucket a → r.2 a ≡ two_taken a)
malloc_keeps_blocks_example =
    malloc_keeps_blocks few_frames (omega arith) two_taken one_bucket one_bucket-IsHeap 20
      (record { covered = omega arith; addressable = omega arith }) (omega arith)
      (3, omega arith, omega arith, free_3)

-- The first byte of the first block.
first_byte : IsData one_bucket 0xC000201C
unfolding bucket_at new_bucket align bitmap_size bitmap
first_byte = record {
  page = 0xC0002000;
  bucket = new_bucket 0xC0002000 (2 ^ 5);
  found = refl;
  behind = omega arith;
  inside = omega arith;
}

first_slot : 0 < (new_bucket (4096 * 0xC0002) (2 ^ 5)).bitmap.size
unfolding new_bucket align bitmap_size bitmap
first_slot = omega arith

one_bucket-found :
    bucket_at one_bucket (4096 * 0xC0002) ≡ some (new_bucket (4096 * 0xC0002) (2 ^ 5))
unfolding bucket_at
one_bucket-found = refl

free_keeps_blocks_example :
    (r : Buckets × Memory) × (free few_frames two_taken one_bucket
        (bitmap_offset (new_bucket (4096 * 0xC0002) (2 ^ 5)) 0)
      ≡ some r)
    × ((a : ℕ) → IsData one_bucket a → r.1 a ≡ two_taken a)
free_keeps_blocks_example =
    free_keeps_blocks few_frames (omega arith) two_taken one_bucket one_bucket-IsHeap 5 0xC0002 0
      (omega arith) (omega arith) (omega arith) (omega arith) first_slot one_bucket-found
