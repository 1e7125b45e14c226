-- ===== src/Mmap/Whole.antt =====
-- `uvm_mmap` (mem/uvm.c) from the call to the last page.
use biglab.Base.{
  ℕ, ◌+◌, ◌*◌, ◌/◌, ◌%◌, ◌^◌, ◌≤◌, ◌<◌, ◌≡◌, sym, ◌∙◌, ap, ◌≢◌, ◌⊎◌, inl, inr, ◌↔◌, List, ◌∷◌, ◌++◌,
  arith, All, length, length-append, ne→==, bit_or, some, false, get_elem?,
}
use mathlib.Core.Path.{subst}
use biglab.Base.Word.{va_max, mmap_begin, mmap_end, add64, minus_one}
use biglab.Base.Outcome.{ok}
use biglab.Machine.{Machine, pure, ◌>>◌}
use biglab.Listing.{list_state, listed, list_state-listed, Ends, listed-Ends}
use biglab.Kvm.{pte_u, is_v}
use biglab.Kvm.Backed.{entry, Backed}
use biglab.Pool.{mmap_region_alloc}
use biglab.Munmap.{bytes_of, pages_of}
use biglab.Munmap.Rounds.{Covers}
use biglab.Munmap.Regions.{Covered, Covered-congr, Same-sym}
use biglab.Munmap.Whole.{HasRegions}
use biglab.Mmap.{uvm_mmap, place_region, choose_begin, map_region_loop}
use biglab.Mmap.Areas.{Free}
use biglab.Mmap.Place.{Free-congr, Begins-congr, Placeable, placed, place_region-Places}
use biglab.Kvm.AddPage.{MapsTo}
use biglab.Mmap.Filling.{map_region_loop-Fills}
use biglab.Mmap.Request.{sized, Requested, request, choose_begin-given}

uvm_mmap-runs :
    (m m1 : Machine) (begin len npages prot cur : ℕ)
    → pages_of len ≡ npages
    → npages ≢ 0
    → cur ≢ 0
    → mmap_region_alloc m ≡ ok (cur, m1)
    → choose_begin begin npages (sized cur npages m1) ≡ ok (some begin, sized cur npages m1)
    → begin ≢ minus_one
    → (m2 : Machine) → place_region begin len npages prot cur (sized cur npages m1) ≡ ok (begin, m2)
    → uvm_mmap begin len prot m ≡ (do list_state; pure begin) m2
unfolding uvm_mmap
uvm_mmap-runs m m1 begin len npages prot cur size nz cnz takes chosen good m2 placed =
    rw (size, ne→== npages 0 nz, takes, ne→== cur 0 cnz, chosen, placed, ne→== begin minus_one good)

-- The request for `npages` pages at `begin` lies between MMAP_BEGIN and MMAP_END, begins at a page,
-- overlaps no region, and no region begins where it ends.
pub record Asks (m : Machine) (xs : List ℕ) (begin npages : ℕ) : Type 0 where
  pub aligned : begin % 4096 ≡ 0
  pub pos : 0 < npages
  pub above : mmap_begin ≤ begin
  pub below : begin + npages * 4096 ≤ mmap_end
  pub room : Free m.pool.node begin (npages * 4096) xs
  pub apart : All (λ x. (m.pool.node x).begin ≢ begin + npages * 4096) xs

HasRegions-same :
    (m m' : Machine) (xs fs : List ℕ)
    → m'.pool ≡ m.pool
    → m'.proc ≡ m.proc
    → HasRegions m xs fs
    → HasRegions m' xs fs
HasRegions-same m m' xs fs pool proc h = record {
  chain = rw (pool, proc) h.chain;
  areas = rw pool h.areas;
  sorted = rw pool h.sorted;
  free = rw pool h.free;
  distinct = h.distinct;
  count = h.count;
}

Asks-Placeable :
    (m m1 : Machine) (cur npages begin : ℕ) (xs fs : List ℕ)
    → HasRegions m xs (cur ∷ fs)
    → Asks m xs begin npages
    → Requested m cur npages xs fs m1
    → Placeable (sized cur npages m1) cur begin xs fs
Asks-Placeable m m1 cur npages begin xs fs h a q =
    let n = q.length_is in
    record {
      regions = q.regions;
      new = record {
        aligned = a.aligned;
        above = a.above;
        pos = omega (arith, n, a.pos);
        below = omega (arith, n, a.below);
      };
      nz = q.nz;
      room = rw n (Free-congr m.pool.node _ begin (npages * 4096) xs q.same a.room);
      apart = rw n (Begins-congr m.pool.node _ (begin + npages * 4096) xs q.same a.apart);
      distinct = q.distinct;
      count = h.count;
    }

module _ (root base : ℕ) (t1 t0 : ℕ → ℕ) (n : ℕ) (al : base % 4096 ≡ 0)
    (fits : base + n * 4096 ≤ va_max) (prot : ℕ) (small : bit_or prot pte_u < 1024) where
  -- The regions cover the new range too, and its pages, from page `i` of the run on, are mapped to
  -- `ys`, zeroed, while `zs` stay free.
  pub record Mmaps (m : Machine) (xs fs : List ℕ) (begin npages i : ℕ) (ys zs : List ℕ)
      (m' : Machine) : Type 0 where
    pub regions : List ℕ
    pub nodes : List ℕ
    pub well : HasRegions m' regions nodes
    pub freed : length fs ≤ length nodes
    pub covers :
        (v : ℕ)
        → Covered m'.pool.node regions v
          ↔ (Covered m.pool.node xs v ⊎ ((begin ≤ v) × (v < begin + npages * 4096)))
    pub table : m'.proc.pgtbl ≡ root
    pub backed : Backed root base t1 t0 n m'.mem m'.user zs
    pub pages :
        (j pa : ℕ)
        → get_elem? ys j ≡ some pa
        → MapsTo root base t1 t0 n al fits (bit_or prot pte_u) small (i + j) pa m'
    pub stay :
        (j : ℕ)
        → j < n
        → (j < i) ⊎ (i + length ys ≤ j)
        → entry root base t1 t0 n m'.mem j ≡ entry root base t1 t0 n m.mem j
    pub same :
        (b : ℕ)
        → m.user.begin ≤ b
        → b < m.user.end
        → All (λ p. (b < p) ⊎ (p + 4096 ≤ b)) ys
        → m'.mem b ≡ m.mem b

  -- In a process whose regions are `xs` with a free node `cur`, whose page table is `root` and
  -- whose user region ends at or below 2^56, with the tables of the run from `base` on in
  -- place and the free pages `ys ++ zs`, as many in `ys` as `len` needs, and `prot` among the
  -- flags of an entry: for a page-aligned request inside the run and between MMAP_BEGIN and
  -- MMAP_END that overlaps no region, at whose end no region begins, and whose pages are not
  -- mapped, `uvm_mmap` does what follows, then lists the page table that it leaves, and
  -- returns the address that was asked for if the assertions of that listing hold (it ends in
  -- their panic if not). The regions cover the old addresses and the new ones and nothing
  -- else, each page of the request is mapped for the user with `prot` to a page of its own
  -- from `ys` that holds zeros, the free pages are `zs`, and no other entry of the run and no
  -- byte of the user region outside `ys` changes.
  pub uvm_mmap-Mmaps :
      (m : Machine) (cur : ℕ) (xs fs ys zs : List ℕ) (begin len i : ℕ)
      → HasRegions m xs (cur ∷ fs)
      → m.proc.pgtbl ≡ root
      → m.user.end ≤ 2 ^ 56
      → Backed root base t1 t0 n m.mem m.user (ys ++ zs)
      → length ys ≡ pages_of len
      → begin ≡ base + i * 4096
      → i + length ys ≤ n
      → Asks m xs begin (length ys)
      → ((j : ℕ) → i ≤ j → j < i + length ys → is_v (entry root base t1 t0 n m.mem j) ≡ false)
      → (m' : Machine) × (uvm_mmap begin len prot m ≡ listed begin m')
        × Ends begin m'
        × Mmaps m xs fs begin (length ys) i ys zs m'
  uvm_mmap-Mmaps m cur xs fs ys zs begin len i h table low b size at le a none =
      let npages = length ys in
      let (m1, q) = request m cur npages xs fs h in
      let m2 = sized cur npages m1 in
      let (m3, placed_runs, p) =
        place_region-Places m2 cur begin xs fs len npages prot
          (Asks-Placeable m m1 cur npages begin xs fs h a q) in
      let mem3 : m3.mem ≡ m.mem = p.mem ∙ q.mem in
      let user3 : m3.user ≡ m.user = p.user ∙ q.user in
      let end_user : m3.user.end ≤ 2 ^ 56 = rw user3 low in
      let (m4, filled, f) =
        map_region_loop-Fills root base t1 t0 n al fits prot small (bytes_of npages / 4096 + 1) i
          begin len ys zs m3 (omega (arith, a.above, a.below)) le end_user
          (p.pgtbl ∙ ap (λ x. x.pgtbl) q.proc ∙ table) (rw (mem3, user3) b)
          (λ j lo hi. rw mem3 (none j lo hi)) in
      let stop_at : add64 begin (bytes_of npages) ≡ base + (i + npages) * 4096 =
        omega (arith, a.above, a.below) in
      let well = HasRegions-same m3 m4 p.ys p.gs f.pool f.proc p.regions in
      (
        m4,
        uvm_mmap-runs m m1 begin len npages prot cur (sym size) (omega (arith, a.pos)) q.nz q.takes
              (choose_begin-given m2 begin npages xs fs q.regions a.pos a.above a.below
                (Free-congr m.pool.node m2.pool.node begin (npages * 4096) xs q.same a.room))
              (omega (arith, a.below)) m4
              (placed_runs
                ∙ rw stop_at (
                    subst
                      (λ v.
                        map_region_loop (bytes_of npages / 4096 + 1) begin len
                          (base + (i + npages) * 4096) prot v m3
                        ≡ ok (begin, m4))
                      (sym at) filled))
            ∙ list_state-listed begin m4 p.ys well.chain
                (omega (arith, well.count, length-append p.ys p.gs)),
        listed-Ends begin m4,
        record {
          regions = p.ys;
          nodes = p.gs;
          well = well;
          freed = p.freed;
          covers = λ v.
              let size_is : (placed m2 cur begin xs fs).npages ≡ npages = q.length_is in
              let both = p.covers v in
              (
                λ d. elim (both.0 (subst (λ g. Covered g.node p.ys v) f.pool d)) [
                  | inl e ↦
                      inl (Covered-congr m2.pool.node m.pool.node xs v (Same-sym _ _ xs q.same) e)
                  | inr (lo, hi) ↦ inr (lo, omega (arith, size_is))
                ],
                λ d.
                    let old : Covered m2.pool.node xs v ⊎ Covers (placed m2 cur begin xs fs) v =
                      elim d [
                        | inl e ↦ inl (Covered-congr m.pool.node m2.pool.node xs v q.same e)
                        | inr (lo, hi) ↦ inr (lo, omega (arith, size_is))
                      ] in
                    subst (λ g. Covered g.node p.ys v) (sym f.pool) (both.1 old),
              );
          table = ap (λ x. x.pgtbl) f.proc ∙ p.pgtbl ∙ ap (λ x. x.pgtbl) q.proc ∙ table;
          backed = f.backed;
          pages = f.pages;
          stay = λ j k out. f.stay j k out ∙ ap (λ x. entry root base t1 t0 n x j) mem3;
          same = λ w lo hi out. f.same w (rw user3 lo) (rw user3 hi) out ∙ ap (λ x. x w) mem3;
        },
      )
