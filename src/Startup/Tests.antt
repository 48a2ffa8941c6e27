-- ===== src/Startup/Tests.antt =====
-- A pool of 16 pages of which the first two are reserved.
use bare_metal_os.Base.{ℕ, ◌+◌, ◌%◌, ◌≤◌, ◌<◌, ◌≡◌, refl, some, List, [], ◌∷◌, arith, length}
use bare_metal_os.Base.Words.{add64}
use bare_metal_os.Config.{page_size}
use bare_metal_os.Buddy.{Buddy}
use bare_metal_os.Buddy.Tests.{quad}
use bare_metal_os.Align.{align_up_ul}
use bare_metal_os.Startup.{
  max_reserved_regions, memory_reserve, first_overlap, find_place, place_frames, Reserved,
}
use bare_metal_os.Startup.Place.{Below, Clear, Covers, memory_reserve-Covers, place_frames-Clear}

abbrev sixteen : Buddy
sixteen = record quad { mempool_size = 0x10000; total_page = 16 }

abbrev two_pages : List Reserved
two_pages = record { start = 0x81000000; size = 0x1800 } ∷ []

behind_them : (place_frames 640 sixteen two_pages).0 ≡ some 0x81002000
unfolding place_frames find_place first_overlap align_up_ul
behind_them = refl

memory_reserve-Covers_example :
    Below 0x81010000 (memory_reserve 0x80fff000 0x2000 sixteen two_pages)
    × ((x : ℕ) → Covers two_pages x → Covers (memory_reserve 0x80fff000 0x2000 sixteen two_pages) x)
    × (length two_pages < max_reserved_regions
        → (x : ℕ) → 0x80fff000 ≤ x
        → x < 0x81001000
        → 0x81000000 ≤ x
        → x < 0x81010000
        → Covers (memory_reserve 0x80fff000 0x2000 sixteen two_pages) x)
memory_reserve-Covers_example =
    memory_reserve-Covers 0x80fff000 0x2000 sixteen two_pages (omega arith) (omega arith)
      (omega arith, tt)

place_frames-Clear_example :
    ((p : ℕ)
      → (place_frames 640 sixteen two_pages).0 ≡ some p
      → (p % page_size ≡ 0)
        × (0x81000000 ≤ p)
        × (p + 640 ≤ 0x81010000)
        × Clear p (p + 640) two_pages)
    × ((n : ℕ)
        → 1 < n
        → find_place n 0x81000000 640 (add64 0x81000000 0x10000) two_pages
          ≡ (place_frames 640 sixteen two_pages).0)
place_frames-Clear_example =
    place_frames-Clear 640 sixteen two_pages (omega arith) (omega arith, tt)
