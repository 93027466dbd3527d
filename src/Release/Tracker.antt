-- ===== src/Release/Tracker.antt =====
-- FreePagesRangeTracker of LLVM_SCUDO_MTE/release.h: it walks the pages in order and hands ranges of
-- releasable pages to a recorder, which is a parameter.
pub mod Coverage
use riscv_mte.Base.{ℕ, ◌+◌, ◌^◌, Bool, true, false, if◌then◌else◌, add64, shl64}

pub record FreePagesRangeTracker (R : Type 0) : Type 0 where
  pub recorder : R
  pub in_range : Bool
  pub current_page : ℕ
  pub current_range_state_page : ℕ

abbrev pub new_tracker : {R : Type 0} → R → FreePagesRangeTracker R
new_tracker r = record {
  recorder = r;
  in_range = false;
  current_page = 0;
  current_range_state_page = 0;
}

module _ {R : Type 0} (page_size_log : ℕ) (release_page_range : (from to : ℕ) → R → R) where
  unfoldable pub close_opened_range : FreePagesRangeTracker R → FreePagesRangeTracker R
  close_opened_range t =
      if t.in_range
      then record t {
        recorder =
            release_page_range (shl64 t.current_range_state_page page_size_log)
              (shl64 t.current_page page_size_log) t.recorder;
        in_range = false;
      }
      else t

  -- The page is released or not, before the step to the next page.
  unfoldable pub open_range : Bool → FreePagesRangeTracker R → FreePagesRangeTracker R
  open_range true t =
      if t.in_range
      then t
      else record t { current_range_state_page = t.current_page; in_range = true }
  open_range false t = close_opened_range t

  unfoldable pub process_next_page : Bool → FreePagesRangeTracker R → FreePagesRangeTracker R
  process_next_page released t =
      let t' = open_range released t in record t' { current_page = add64 t'.current_page 1 }

  unfoldable pub skip_pages : ℕ → FreePagesRangeTracker R → FreePagesRangeTracker R
  skip_pages n t =
      let t' = close_opened_range t in record t' { current_page = add64 t'.current_page n }

  unfoldable pub finish : FreePagesRangeTracker R → FreePagesRangeTracker R
  finish t = close_opened_range t
