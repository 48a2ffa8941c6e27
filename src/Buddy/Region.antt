-- ===== src/Buddy/Region.antt =====
-- lib/buddy.c, `buddy_set_region` and `buddy_mark_reserved_range`.
use bare_metal_os.Base.{
  ℕ, zero, suc, ◌+◌, ◌-◌, ◌*◌, ◌/◌, ◌%◌, ◌≤◌, ◌<◌, min, ◌≡◌, refl, ap, ◌≢◌, inl, inr, Bool, ◌&&◌,
  ◌||◌, arith, ltb, leb, ◌==◌, if◌then◌else◌, Bool-cases, update,
}
use bare_metal_os.Base.Words.{word_mod, add64, sub64}
use bare_metal_os.Config.{
  page_size, max_pool_size, max_total_pages, default_pool_start, default_pool_size,
}
use bare_metal_os.Align.{align_down_ul, align_up_ul, align_down_ul_lem, align_up_ul_lem}
use bare_metal_os.Buddy.InHand.{IsPool}
use bare_metal_os.Buddy.{Frame, Buddy, reserved}

-- The three steps of `buddy_set_region`: the region asked for, the default if that is less than a
-- page, and the number of pages.
abbrev pub default_region : Buddy → Buddy
default_region s = record s { mempool_start = default_pool_start; mempool_size = default_pool_size }

abbrev pub given_region : ℕ → ℕ → Buddy → Buddy
given_region start size s =
    let size' = align_down_ul size page_size in
    record s {
      mempool_start = align_up_ul start page_size;
      mempool_size = if ltb max_pool_size size' then max_pool_size else size';
    }

abbrev pub count_pages : Buddy → Buddy
count_pages s =
    let n = s.mempool_size / page_size in
    record s { total_page = if ltb max_total_pages n then max_total_pages else n }

pub set_region : ℕ → ℕ → Buddy → Buddy
set_region start size s =
    let r = if size == 0 then default_region s else given_region start size s in
    count_pages (if ltb r.mempool_size page_size then default_region r else r)

-- for (i = page_start; i < page_end; ++i)
pub mark_reserved : ℕ → ℕ → (ℕ → Frame) → ℕ → Frame
mark_reserved zero i f = f
mark_reserved (suc n) i f = mark_reserved n (i + 1) (update f i (record (f i) { state = reserved }))

-- `page_start` and `page_end` of `buddy_mark_reserved_range`, the latter before it is capped.
abbrev pub first_page : ℕ → Buddy → ℕ
first_page start s =
    sub64 (if ltb start s.mempool_start then s.mempool_start else start) s.mempool_start / page_size

abbrev pub end_page : ℕ → Buddy → ℕ
end_page reserve_end s =
    let region_end = add64 s.mempool_start s.mempool_size in
    align_up_ul
      (sub64 (if ltb region_end reserve_end then region_end else reserve_end) s.mempool_start)
      page_size
    / page_size

-- Does `buddy_mark_reserved_range` return early?
abbrev pub off_pool : ℕ → ℕ → Buddy → Bool
off_pool start size s =
    ((size == 0) || (s.total_page == 0))
    || (leb (add64 start size) s.mempool_start || leb (add64 s.mempool_start s.mempool_size) start)

pub mark_reserved_range : ℕ → ℕ → Buddy → Buddy
mark_reserved_range start size s =
    let first = first_page start s in
    let last = end_page (add64 start size) s in
    if off_pool start size s
    then s
    else record s { frames = mark_reserved (min s.total_page last - first) first s.frames }

mark_reserved-at :
    (n i : ℕ) (f : ℕ → Frame) (p : ℕ)
    → mark_reserved n i f p
      ≡ (if leb i p && ltb p (i + n) then record (f p) { state = reserved } else f p)
unfolding mark_reserved
mark_reserved-at zero i f p = ground arith
mark_reserved-at (suc n) i f p =
    ground (arith, mark_reserved-at n (i + 1) (update f i (record (f i) { state = reserved })) p)

-- Does page `p` of the pool share a byte with `[start, start + size)`?
abbrev pub overlaps : ℕ → ℕ → Buddy → ℕ → Bool
overlaps start size s p =
    let page = s.mempool_start + p * page_size in
    ltb 0 size && (ltb p s.total_page && (ltb page (start + size) && ltb start (page + page_size)))

module _ (start size : ℕ) {s : Buddy} (pool : IsPool s) (fits : start + size < word_mod) where
  first_page_lem : start < word_mod → first_page start s ≡ (start - s.mempool_start) / page_size
  first_page_lem small = ground (arith, pool.no_wrap)

  -- The byte at which the range or the pool ends, counted from the pool's start.
  abbrev stop : ℕ
  stop = min (start + size) (s.mempool_start + s.mempool_size) - s.mempool_start

  end_page_lem :
      s.mempool_start < start + size
      → end_page (add64 start size) s ≡ align_up_ul stop page_size / page_size
  end_page_lem beyond = ap (λ x. align_up_ul x page_size / page_size) (ground (arith, pool.no_wrap))

  -- The first page that the range does not reach, if the pool has it.
  end_page_iff :
      (p : ℕ)
      → s.mempool_start < start + size
      → p < s.total_page
      → (p < end_page (add64 start size) s → s.mempool_start + p * page_size < start + size)
        × (s.mempool_start + p * page_size < start + size → p < end_page (add64 start size) s)
  end_page_iff p beyond inside =
      let up =
        align_up_ul_lem 12 52 stop refl
          (omega (arith, pool.no_wrap, pool.not_null, pool.aligned)) in
      rw (end_page_lem beyond) (
        λ h. omega (arith, up.0, up.1, up.2, pool.holds),
        λ h. omega (arith, up.0, up.1, up.2, pool.holds),
      )

-- A range that does not wrap round reserves exactly the pages of the pool that it touches, and
-- writes no other frame.
pub mark_reserved_range_lem :
    (start size : ℕ) {s : Buddy} (p : ℕ)
    → IsPool s
    → start + size < word_mod
    → (mark_reserved_range start size s).frames p
      ≡ (if overlaps start size s p then record (s.frames p) { state = reserved } else s.frames p)
unfolding mark_reserved_range
mark_reserved_range_lem start size {s} p pool fits =
    let sum : add64 start size ≡ start + size = omega arith in
    elim (Bool-cases (off_pool start size s)) [
      | inl off ↦ rw (off, mark_reserved_range) (ground (arith, sum, pool.no_wrap, pool.holds))
      | inr on ↦
          let first = first_page_lem start size pool fits (omega arith) in
          let last = end_page_iff start size pool fits p (ground (arith, sum)) in
          let n = min s.total_page (end_page (add64 start size) s) - first_page start s in
          rw (on, mark_reserved_range)
            (ground (
              arith,
              first,
              last,
              pool.no_wrap,
              mark_reserved-at n (first_page start s) s.frames p,
            ))
    ]

-- `buddy_set_region` leaves a page-aligned pool of at least one page and at most 2 GB, whose pages
-- are counted.
pub set_region_lem :
    (start size : ℕ) (s : Buddy)
    → start + page_size ≤ word_mod
    → size < word_mod
    → let r = set_region start size s in
      (r.mempool_start % page_size ≡ 0)
      × (r.mempool_size ≤ max_pool_size)
      × (0 < r.total_page)
      × (r.total_page * page_size ≡ r.mempool_size)
unfolding set_region
set_region_lem start size s fs fz =
    ground (arith, align_up_ul_lem 12 52 start refl fs, align_down_ul_lem 12 52 size refl fz)

-- A region of whole pages, up to 2 GB, whose start is not page-aligned: the pool that
-- `buddy_set_region` makes of it ends behind the region.
pub set_region_overrun :
    (start size : ℕ) (s : Buddy)
    → start + page_size ≤ word_mod
    → start % page_size ≢ 0
    → size % page_size ≡ 0
    → page_size ≤ size
    → size ≤ max_pool_size
    → let r = set_region start size s in
      (r.mempool_size ≡ size) × (start + size < r.mempool_start + r.mempool_size)
unfolding set_region
set_region_overrun start size s fs odd whole least most =
    ground
      (arith, align_up_ul_lem 12 52 start refl fs, align_down_ul_lem 12 52 size refl (omega arith))
