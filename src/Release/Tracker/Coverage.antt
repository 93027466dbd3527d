-- ===== src/Release/Tracker/Coverage.antt =====
-- The pages that FreePagesRangeTracker of LLVM_SCUDO_MTE/release.h hands to its recorder.
use native.Mathlib.Nat.{mul-le-mul_right}
use riscv_mte.Base.{
  ℕ, ◌+◌, ◌*◌, ◌^◌, ◌≤◌, ◌<◌, ◌≡◌, ap, ◌∙◌, arith, ◌==◌, leb, ltb, ◌&&◌, if◌then◌else◌, u64_mod,
  add64, add64_eq, shl64, shl64_eq, inl, inr, Bool-cases, Bool, true, false,
}
use riscv_mte.Release.Tracker.{
  FreePagesRangeTracker, close_opened_range, open_range, process_next_page, skip_pages, finish,
}

-- One page in a range, as a number.
abbrev pub inside : (from to k : ℕ) → ℕ
inside from to k = if leb from k && ltb k to then 1 else 0

-- How often a recorder has released a page. A range of pages counts each of its pages once.
pub record RecordsPages (R : Type 0) (page_size_log : ℕ)
    (release_page_range : (from to : ℕ) → R → R) : Type 0 where
  pub pages : R → ℕ → ℕ
  pub pages-release :
      (from to : ℕ) (r : R) (k : ℕ)
      → from ≤ to
      → to * 2 ^ page_size_log < u64_mod
      → pages (release_page_range (from * 2 ^ page_size_log) (to * 2 ^ page_size_log) r) k
        ≡ pages r k + inside from to k

-- The range that is open starts at a page that the tracker has passed, and no address wraps.
pub record IsTracker {R : Type 0} (page_size_log : ℕ) (t : FreePagesRangeTracker R) : Type 0 where
  pub start_le : t.current_range_state_page ≤ t.current_page
  pub fits : t.current_page * 2 ^ page_size_log < u64_mod

module _ {R : Type 0} (page_size_log : ℕ) (release_page_range : (from to : ℕ) → R → R)
    (records : RecordsPages R page_size_log release_page_range) where
  -- The pages that are released once the open range is closed.
  abbrev pub covered : FreePagesRangeTracker R → ℕ → ℕ
  covered t k =
      records.pages t.recorder k
      + (if t.in_range then inside t.current_range_state_page t.current_page k else 0)

  module _ (t : FreePagesRangeTracker R) (is : IsTracker page_size_log t) where
    address_lem : shl64 t.current_page page_size_log ≡ t.current_page * 2 ^ page_size_log
    address_lem = shl64_eq t.current_page page_size_log is.fits

    start_address_lem :
        shl64 t.current_range_state_page page_size_log
        ≡ t.current_range_state_page * 2 ^ page_size_log
    start_address_lem =
        let le =
          mul-le-mul_right {m = t.current_range_state_page} {n = t.current_page} (2 ^ page_size_log)
            is.start_le in
        shl64_eq t.current_range_state_page page_size_log (omega (arith, is.fits))

    pub close-covered :
        (k : ℕ)
        → records.pages (close_opened_range page_size_log release_page_range t).recorder k
          ≡ covered t k
    unfolding close_opened_range
    close-covered k = elim (Bool-cases t.in_range) [
      | inl open_range ↦ rw open_range (
          rw address_lem (
            rw start_address_lem (
              records.pages-release t.current_range_state_page t.current_page t.recorder k
                is.start_le is.fits)))
      | inr closed ↦ rw closed (omega arith)
    ]

    close_page :
        (close_opened_range page_size_log release_page_range t).current_page ≡ t.current_page
    unfolding close_opened_range
    close_page = ground arith

    close_in_range : (close_opened_range page_size_log release_page_range t).in_range ≡ false
    unfolding close_opened_range
    close_in_range = ground arith

    close_start :
        (close_opened_range page_size_log release_page_range t).current_range_state_page
        ≡ t.current_range_state_page
    unfolding close_opened_range
    close_start = ground arith

    closed_covered :
        (k : ℕ) → covered (close_opened_range page_size_log release_page_range t) k ≡ covered t k
    closed_covered k = rw close_in_range (omega (arith, close-covered k))

  -- A step to a later page: the pages that it adds, and where it stands.
  pub record IsProcessed (t t' : FreePagesRangeTracker R) (n : ℕ) (adds : ℕ → ℕ) : Type 0 where
    pub covers : (k : ℕ) → covered t' k ≡ covered t k + adds k
    pub is_tracker : IsTracker page_size_log t'
    pub moved : t'.current_page ≡ t.current_page + n

  module _ (t : FreePagesRangeTracker R) (is : IsTracker page_size_log t) where
    -- Where the tracker closes a range and moves.
    closing :
        (n : ℕ)
        → (t.current_page + n) * 2 ^ page_size_log < u64_mod
        → (t.current_page + n < u64_mod)
        → let t' = close_opened_range page_size_log release_page_range t in
          IsProcessed t (record t' { current_page = add64 t'.current_page n }) n (λ k. 0)
    closing n fits small =
        let next : add64 (close_opened_range page_size_log release_page_range t).current_page n
            ≡ t.current_page + n =
          ap (λ (p : ℕ). add64 p n) (close_page t is) ∙ add64_eq t.current_page n small in
        record {
          covers = λ k. rw (close_in_range t is) (omega (arith, close-covered t is k));
          is_tracker = record {
            start_le = omega (arith, next, close_start t is, is.start_le);
            fits = rw next fits;
          };
          moved = next;
        }

    -- For a recorder that counts the pages of a range once each (RecordsPages), and a tracker whose
    -- addresses do not wrap, `processNextPage` adds the current page to the released ones exactly
    -- if it is to be released, moves to the next page, and keeps the tracker's invariant
    -- (IsTracker).
    pub process_next_page-IsProcessed :
        (released : Bool)
        → (t.current_page + 1) * 2 ^ page_size_log < u64_mod
        → t.current_page + 1 < u64_mod
        → IsProcessed t
            (process_next_page page_size_log release_page_range released t)
            1
            (λ k. if released && k == t.current_page then 1 else 0)
    unfolding process_next_page open_range
    process_next_page-IsProcessed true fits small = elim (Bool-cases t.in_range) [
      | inl running ↦ rw running (record {
        covers = λ k. ground (arith, is.start_le, add64_eq t.current_page 1 small);
        is_tracker = record {
          start_le = omega (arith, is.start_le, add64_eq t.current_page 1 small);
          fits = rw (add64_eq t.current_page 1 small) fits;
        };
        moved = add64_eq t.current_page 1 small;
      })
      | inr idle ↦ rw idle (record {
        covers = λ k. ground (arith, idle, add64_eq t.current_page 1 small);
        is_tracker = record {
          start_le = omega (arith, add64_eq t.current_page 1 small);
          fits = rw (add64_eq t.current_page 1 small) fits;
        };
        moved = add64_eq t.current_page 1 small;
      })
    ]
    process_next_page-IsProcessed false fits small = closing 1 fits small

    pub skip_pages-IsProcessed :
        (n : ℕ)
        → (t.current_page + n) * 2 ^ page_size_log < u64_mod
        → t.current_page + n < u64_mod
        → IsProcessed t (skip_pages page_size_log release_page_range n t) n (λ k. 0)
    unfolding skip_pages
    skip_pages-IsProcessed n fits small = closing n fits small

    pub finish-covered :
        (k : ℕ) → records.pages (finish page_size_log release_page_range t).recorder k ≡ covered t k
    unfolding finish
    finish-covered k = close-covered t is k
