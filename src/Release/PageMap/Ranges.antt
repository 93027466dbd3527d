-- ===== src/Release/PageMap/Ranges.antt =====
-- incRange, setAsAllCountedRange and updateAsAllCountedIf of RegionPageMap of
-- LLVM_SCUDO_MTE/release.h.
use riscv_mte.Base.{
  ℕ, zero, suc, ◌+◌, ◌-◌, ◌≤◌, ◌<◌, ◌≡◌, refl, sym, ap, ◌∙◌, arith, ◌==◌, leb, ltb, ◌&&◌, ◌||◌, min,
  if◌then◌else◌, u64_mod, add64, add64_eq, inl, inr, Bool-cases, ==_iff, Bool,
}
use riscv_mte.Release.PageMap.{
  RegionPageMap, Buffer, get_counter, inc, inc_loop, inc_range, set_as_all_counted, set_loop,
  set_as_all_counted_range, update_as_all_counted_if,
}
use riscv_mte.Release.PageMap.Counters.{IsLayout, AreWords, base, big}
use riscv_mte.Release.PageMap.Updates.{IsUpdated, inc-IsUpdated, set_as_all_counted-IsUpdated}

-- Whether a counter lies in a range of `count` counters from `i` on.
abbrev pub covers : (region i count r j : ℕ) → Bool
covers region i count r j = (region == r) && (leb i j && ltb j (i + count))

-- Every counter is mapped by `f`, which may depend on the counter.
pub record IsMapped (m : RegionPageMap) (f : ℕ → ℕ → ℕ → ℕ) (words words' : Buffer) : Type 0 where
  pub values :
      (r j : ℕ)
      → r < m.regions
      → j < m.num_counters
      → get_counter m r j words' ≡ f r j (get_counter m r j words)
  pub are_words : AreWords words'

abbrev pub raised : (region i count : ℕ) → ℕ → ℕ → ℕ → ℕ
raised region i count r j n = if covers region i count r j then n + 1 else n

abbrev pub marked : (mask region i count : ℕ) → ℕ → ℕ → ℕ → ℕ
marked mask region i count r j n = if covers region i count r j then mask else n

module _ (m : RegionPageMap) (is : IsLayout m) (region : ℕ) (h : region < m.regions) where
  -- The counter at the head of a range, and the rest.
  one_value :
      (i v r j : ℕ) (words words' : Buffer)
      → IsUpdated m region i v words words'
      → r < m.regions
      → j < m.num_counters
      → get_counter m r j words'
        ≡ (if (region == r) && (i == j) then v else get_counter m r j words)
  one_value i v r j words words' u r_lt j_lt = elim (Bool-cases (region == r)) [
    | inl same ↦ elim (Bool-cases (i == j)) [
      | inl same_i ↦
          let e : region ≡ r = (==_iff region r).0 same in
          let e' : i ≡ j = (==_iff i j).0 same_i in
          rw (same, same_i)
            (ap (λ (t : ℕ). get_counter m t j words') (sym e)
              ∙ ap (λ (t : ℕ). get_counter m region t words') (sym e')
              ∙ u.at_index)
      | inr other ↦ rw (same, other) (u.elsewhere r j r_lt j_lt (inr (λ e. ground (arith, e))))
    ]
    | inr other ↦ rw other (u.elsewhere r j r_lt j_lt (inl (λ e. ground (arith, e))))
  ]

  pub inc_loop-IsMapped :
      (count i : ℕ) (words : Buffer)
      → AreWords words
      → i + count ≤ m.num_counters
      → ((j : ℕ) → i ≤ j → j < i + count → get_counter m region j words + 1 < base m is)
      → IsMapped m (raised region i count) words (inc_loop m count region i words)
  unfolding inc_loop
  inc_loop-IsMapped zero i words are le room = record {
    values = λ r j r_lt j_lt. ground arith;
    are_words = are;
  }
  inc_loop-IsMapped (suc count) i words are le room =
      let u =
        inc-IsUpdated m is region i h (omega arith) words are
          (room i (omega arith) (omega arith)) in
      let rest =
        inc_loop-IsMapped count (i + 1) (inc m region i words) u.are_words (omega arith) (λ j lo hi.
          omega (
            arith,
            room j (omega arith) (omega arith),
            u.elsewhere region j h (omega arith) (inr (λ e. omega arith)),
          )) in
      record {
        values = λ r j r_lt j_lt. ground (
          arith,
          rest.values r j r_lt j_lt,
          one_value i (get_counter m region i words + 1) r j words (inc m region i words) u r_lt
              j_lt,
        );
        are_words = rest.are_words;
      }

  pub set_loop-IsMapped :
      (count i : ℕ) (words : Buffer)
      → AreWords words
      → i + count ≤ m.num_counters
      → IsMapped m (marked m.counter_mask region i count) words (set_loop m count region i words)
  unfolding set_loop
  set_loop-IsMapped zero i words are le = record {
    values = λ r j r_lt j_lt. ground arith;
    are_words = are;
  }
  set_loop-IsMapped (suc count) i words are le =
      let u = set_as_all_counted-IsUpdated m is region i h (omega arith) words are in
      let rest =
        set_loop-IsMapped count (i + 1) (set_as_all_counted m region i words) u.are_words
          (omega arith) in
      record {
        values = λ r j r_lt j_lt. ground (
          arith,
          rest.values r j r_lt j_lt,
          one_value i m.counter_mask r j words (set_as_all_counted m region i words) u r_lt j_lt,
        );
        are_words = rest.are_words;
      }

-- Whether a counter lies between two indices, both included.
abbrev pub between : (region from to r j : ℕ) → Bool
between region from to r j = (region == r) && (leb from j && leb j to)

module _ (m : RegionPageMap) (is : IsLayout m) (region from to : ℕ) (h : region < m.regions)
    (from_le : from ≤ m.num_counters) (le : from ≤ to) (to_fits : to + 1 < u64_mod) (words : Buffer)
    (are : AreWords words) where
  abbrev count : ℕ
  count = min (add64 to 1) m.num_counters - from

  count_eq : count ≡ min (to + 1) m.num_counters - from
  count_eq = ap (λ (t : ℕ). min t m.num_counters - from) (add64_eq to 1 to_fits)

  -- On the pages of the map, the loop's range is the pages from `from` to `to`.
  covers-between :
      (r j : ℕ) → j < m.num_counters → covers region from count r j ≡ between region from to r j
  covers-between r j j_lt = ground (arith, count_eq)

  -- For a page map with the layout that `reset` gives (IsLayout), and pages of a range whose
  -- counters are below the mask, `incRange` adds one to the counters of the range that the map has,
  -- and changes no other.
  pub inc_range-IsMapped :
      ((j : ℕ)
        → from ≤ j
        → j ≤ to
        → j < m.num_counters
        → get_counter m region j words < m.counter_mask)
      → IsMapped m
          (λ r j n. if between region from to r j then n + 1 else n)
          words
          (inc_range m region from to words)
  unfolding inc_range
  inc_range-IsMapped room =
      let mapped =
        inc_loop-IsMapped m is region h count from words are (omega (arith, count_eq)) (λ j lo hi.
          omega (
            arith,
            room j lo (omega (arith, count_eq)) (omega (arith, count_eq)),
            is.mask_eq,
            big m is,
          )) in
      record {
        values = λ r j r_lt j_lt.
            mapped.values r j r_lt j_lt
            ∙ ap (λ b. if b then get_counter m r j words + 1 else get_counter m r j words)
                (covers-between r j j_lt);
        are_words = mapped.are_words;
      }

  -- `setAsAllCountedRange` sets the counters of the range that the map has to the mask, and changes no other.
  pub set_as_all_counted_range-IsMapped :
      IsMapped m
        (λ r j n. if between region from to r j then m.counter_mask else n)
        words
        (set_as_all_counted_range m region from to words)
  unfolding set_as_all_counted_range
  set_as_all_counted_range-IsMapped =
      let mapped = set_loop-IsMapped m is region h count from words are (omega (arith, count_eq)) in
      record {
        values = λ r j r_lt j_lt.
            mapped.values r j r_lt j_lt
            ∙ ap (λ b. if b then m.counter_mask else get_counter m r j words)
                (covers-between r j j_lt);
        are_words = mapped.are_words;
      }

module _ (m : RegionPageMap) (is : IsLayout m) (region i max_count : ℕ) (h : region < m.regions)
    (h' : i < m.num_counters) (words : Buffer) (are : AreWords words) where
  -- A counter that already holds the mask may be set to it.
  full_value :
      (r j : ℕ)
      → get_counter m region i words ≡ m.counter_mask
      → get_counter m r j words
        ≡ (if between region i i r j then m.counter_mask else get_counter m r j words)
  full_value r j full = elim (Bool-cases (between region i i r j)) [
    | inl hit ↦
        let e : r ≡ region = ground arith in
        let e' : j ≡ i = ground arith in
        rw hit (
          ap (λ (t : ℕ). get_counter m t j words) e
          ∙ ap (λ (t : ℕ). get_counter m region t words) e'
          ∙ full)
    | inr other ↦ rw other refl
  ]

  set_value :
      (r j : ℕ)
      → r < m.regions
      → j < m.num_counters
      → get_counter m r j (set_as_all_counted m region i words)
        ≡ (if between region i i r j then m.counter_mask else get_counter m r j words)
  set_value r j r_lt j_lt =
      let u = set_as_all_counted-IsUpdated m is region i h h' words are in
      ground (
        arith,
        one_value m is region h i m.counter_mask r j words (set_as_all_counted m region i words) u
            r_lt j_lt,
      )

  -- For a page map with the layout that `reset` gives (IsLayout), `updateAsAllCountedIf` answers
  -- whether the counter is the mask or the given count; if so, the counter is the mask afterwards,
  -- and all else is as before.
  pub update_as_all_counted_if-IsMapped :
      ((update_as_all_counted_if m region i max_count words).0
        ≡ (get_counter m region i words == m.counter_mask)
          || (get_counter m region i words == max_count))
      × IsMapped m
          (λ r j n.
            if (update_as_all_counted_if m region i max_count words).0 && between region i i r j
            then m.counter_mask
            else n)
          words
          ((update_as_all_counted_if m region i max_count words).1)
  unfolding update_as_all_counted_if
  update_as_all_counted_if-IsMapped =
      elim (Bool-cases (get_counter m region i words == m.counter_mask)) [
        | inl full ↦ rw full (
          refl,
          record {
            values = λ r j r_lt j_lt.
                full_value r j ((==_iff (get_counter m region i words) m.counter_mask).0 full);
            are_words = are;
          },
        )
        | inr lacking ↦ elim (Bool-cases (get_counter m region i words == max_count)) [
          | inl counted ↦ rw lacking (
              rw counted (
                refl,
                record {
                  values = set_value;
                  are_words = (set_as_all_counted-IsUpdated m is region i h h' words are).are_words;
                },
              ))
          | inr other ↦
              rw lacking
                (rw other (refl, record { values = λ r j r_lt j_lt. refl; are_words = are }))
        ]
      ]
