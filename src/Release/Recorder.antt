-- ===== src/Release/Recorder.antt =====
-- The recorders of LLVM_SCUDO_MTE/release.h. A range of pages has an address of its first byte and
-- one behind its last. What goes to the operating system is a list of calls, an address and a size,
-- the last one first. The functions are each recorder's `releasePageRangeToOS`.
pub mod Pages
use riscv_mte.Base.{
  ℕ, zero, suc, ◌+◌, ◌-◌, ◌/◌, ◌^◌, List, ◌∷◌, ◌==◌, if◌then◌else◌, add64, sub64, shr,
}

pub record RegionReleaseRecorder : Type 0 where
  pub released_bytes : ℕ
  pub base : ℕ
  pub offset : ℕ
  pub calls : List (ℕ × ℕ)

unfoldable pub region_release_page_range :
    (from to : ℕ) → RegionReleaseRecorder → RegionReleaseRecorder
region_release_page_range from to r =
    let size = sub64 to from in
    record r {
      calls = (add64 (add64 r.base r.offset) from, size) ∷ r.calls;
      released_bytes = add64 r.released_bytes size;
    }

-- The address of a call counts from the base.
pub record ReleaseRecorder : Type 0 where
  pub released_bytes : ℕ
  pub base : ℕ
  pub offset : ℕ
  pub calls : List (ℕ × ℕ)

unfoldable pub release_page_range : (from to : ℕ) → ReleaseRecorder → ReleaseRecorder
release_page_range from to r =
    let size = sub64 to from in
    record r {
      calls = (add64 from r.offset, size) ∷ r.calls;
      released_bytes = add64 r.released_bytes size;
    }

pub record FragmentationRecorder : Type 0 where
  pub released_pages_count : ℕ

unfoldable pub fragmentation_release_page_range :
    (page_size_log from to : ℕ) → FragmentationRecorder → FragmentationRecorder
fragmentation_release_page_range page_size_log from to r = record {
  released_pages_count = add64 r.released_pages_count (shr (sub64 to from) page_size_log);
}

-- The free pages of each group.
pub record MemoryGroupFragmentationRecorder : Type 0 where
  pub free_pages_count : ℕ → ℕ

-- `count` pages from page `i` on.
unfoldable pub count_pages : (num_pages_in_one_group count i : ℕ) → (ℕ → ℕ) → ℕ → ℕ
count_pages per_group zero i counts = counts
count_pages per_group (suc count) i counts =
    count_pages per_group count (i + 1)
      (λ g. if g == i / per_group then add64 (counts g) 1 else counts g)

unfoldable pub group_release_page_range :
    (group_size page_size from to : ℕ)
    → MemoryGroupFragmentationRecorder
    → MemoryGroupFragmentationRecorder
group_release_page_range group_size page_size from to r = record {
  free_pages_count =
      count_pages (group_size / page_size) (to / page_size - from / page_size) (from / page_size)
        r.free_pages_count;
}
