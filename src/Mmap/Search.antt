-- ===== src/Mmap/Search.antt =====
-- The searches of `uvm_mmap`: first fit, and the check of a given range.
use biglab.Base.{
  ℕ, zero, suc, ◌+◌, ◌*◌, ◌^◌, ◌≤◌, ◌<◌, ◌≡◌, refl, sym, ◌∙◌, ◌≢◌, inl, inr, ◌↔◌, Bool, true, false,
  ◌&&◌, Option, none, some, List, [], ◌∷◌, arith, ◌==◌, ltb, leb, ne→==, eq→==, le→leb, lt→leb,
  if◌then◌else◌, Bool-cases, length,
}
use mathlib.Core.Path.{subst}
use native.Mathlib.Decide.{dec_le}
use biglab.Base.Word.{add64, mmap_begin, mmap_end}
use biglab.Base.Outcome.{ok}
use biglab.Machine.{Node, Machine}
use biglab.Pool.Nodes.{Chain, nexts}
use biglab.Munmap.{bytes_of, end_of}
use biglab.Mmap.{find_loop, overlap_loop, list_fuel, search_begin, check_begin}
use biglab.Mmap.Areas.{stop, Sorted, Free, Free-before}

-- What the search from `lo` on has found: the begin `b`, or 0, and the last value `s` of
-- `search_begin`.
record Found (node : ℕ → Node) (lo len : ℕ) (xs : List ℕ) (b s : ℕ) : Type 0 where
  above : lo ≤ s
  within : s ≤ mmap_end
  hit : b ≢ 0 → (b ≡ s) × (s + len ≤ mmap_end)
  free : Free node s len xs
  least : (c : ℕ) → lo ≤ c → Free node c len xs → s ≤ c

-- A region that leaves no room before it is passed over.
find_loop_step :
    (k : ℕ) (node : ℕ → Node) (npages lo cur x : ℕ)
    → cur ≡ x
    → x ≢ 0
    → (node x).begin < add64 lo (bytes_of npages)
    → end_of (node x) ≡ stop (node x)
    → find_loop (suc k) node npages cur lo ≡ find_loop k node npages (node x).next (stop (node x))
unfolding find_loop
find_loop_step k node npages lo cur x e nz tight end_eq =
    rw (e, ne→== x 0 nz, lt→leb (add64 lo (bytes_of npages)) (node x).begin tight, end_eq)

find_loop-Found :
    (k : ℕ) (node : ℕ → Node) (npages lo cur : ℕ) (xs : List ℕ)
    → length xs < k
    → Chain (nexts node) cur xs
    → Sorted node lo xs
    → mmap_begin ≤ lo
    → lo ≤ mmap_end
    → 0 < npages
    → npages < 2 ^ 20
    → (b : ℕ) × (s : ℕ) × (find_loop k node npages cur lo ≡ ok (b, s))
      × Found node lo (npages * 4096) xs b s
unfolding find_loop
find_loop-Found zero node npages lo cur xs fuel c s lo1 lo2 pos small = absurd (omega arith)
find_loop-Found (suc k) node npages lo cur [] fuel c s lo1 lo2 pos small = (
  0,
  lo,
  rw (eq→== cur 0 c),
  record {
    above = omega arith;
    within = lo2;
    hit = λ h. absurd (h refl);
    free = tt;
    least = λ d h f. h;
  },
)
find_loop-Found (suc k) node npages lo cur (x ∷ xs) fuel (e, nz, c) (le, pos', fits, s) lo1 lo2 pos
      small =
    let end_eq : end_of (node x) ≡ stop (node x) = omega arith in
    elim (dec_le (add64 lo (bytes_of npages)) (node x).begin) [
      | yes room ↦ (
        lo,
        lo,
        rw (e, ne→== x 0 nz, le→leb (add64 lo (bytes_of npages)) (node x).begin room),
        record {
          above = omega arith;
          within = lo2;
          hit = λ h. (refl, omega arith);
          free =
              (omega arith, Free-before node (stop (node x)) lo (npages * 4096) xs s (omega arith));
          least = λ d h f. h;
        },
      )
      | no tight ↦
          let (b, t, runs, found) =
            find_loop-Found k node npages (stop (node x)) (node x).next xs (omega arith) c s
              (omega arith) fits pos small in
          (
            b,
            t,
            find_loop_step k node npages lo cur x e nz (omega arith) end_eq ∙ runs,
            record {
              above = omega (arith, found.above);
              within = found.within;
              hit = found.hit;
              free = (inr found.above, found.free);
              least = λ d h (f, fs). found.least d (omega arith) fs;
            },
          )
    ]

-- A request that `uvm_mmap` can be asked to place, and the list of regions that it finds.
pub record Ready (m : Machine) (npages : ℕ) (xs : List ℕ) : Type 0 where
  pub chain : Chain (nexts m.pool.node) m.proc.mmap xs
  pub short : length xs < list_fuel
  pub sorted : Sorted m.pool.node mmap_begin xs
  pub pos : 0 < npages
  pub small : npages < 2 ^ 20

-- A range of the length asked for that `uvm_mmap` may use.
abbrev pub Fits : Machine → ℕ → List ℕ → ℕ → Type 0
Fits m npages xs b =
    (mmap_begin ≤ b) × (b + npages * 4096 ≤ mmap_end) × Free m.pool.node b (npages * 4096) xs

-- The result of a search for the lowest such range.
abbrev pub FirstFit : Machine → ℕ → List ℕ → Option ℕ → Type 0
FirstFit m npages xs none = (c : ℕ) → ¬ (Fits m npages xs c)
FirstFit m npages xs (some b) = Fits m npages xs b × ((c : ℕ) → Fits m npages xs c → b ≤ c)

search_begin-Found :
    (m : Machine) (npages : ℕ) (xs : List ℕ) (b s : ℕ)
    → npages < 2 ^ 20
    → find_loop list_fuel m.pool.node npages m.proc.mmap mmap_begin ≡ ok (b, s)
    → Found m.pool.node mmap_begin (npages * 4096) xs b s
    → (o : Option ℕ) × (search_begin npages m ≡ ok (o, m)) × FirstFit m npages xs o
unfolding search_begin
search_begin-Found m npages xs b s small runs found = elim (Bool-cases (b == 0)) [
  | inl z ↦ elim (Bool-cases (leb (add64 s (bytes_of npages)) mmap_end)) [
    | inl room ↦ (
      some s,
      rw (runs, z, room),
      ((found.above, ground (arith, found.within), found.free), λ c f. found.least c f.0 f.2),
    )
    | inr full ↦ (
      none,
      rw (runs, z, full),
      λ c f. let low = found.least c f.0 f.2 in ground (arith, found.within),
    )
  ]
  | inr hit ↦
      let h = found.hit (ground arith) in
      (
        some b,
        rw (runs, hit),
        subst (λ t. Fits m npages xs t × ((c : ℕ) → Fits m npages xs c → t ≤ c)) (sym h.0)
            ((found.above, h.1, found.free), λ c f. found.least c f.0 f.2),
      )
]

-- For at least one and fewer than 2^20 pages, on a list of fewer than 300 regions that are not
-- empty, in order from MMAP_BEGIN on, do not overlap and end at MMAP_END at most: asked for any
-- free range, `uvm_mmap` finds the lowest one of the length asked for between MMAP_BEGIN and
-- MMAP_END that overlaps no region, finds none only if there is none, and changes nothing by the
-- search.
pub search_begin-FirstFit :
    (m : Machine) (npages : ℕ) (xs : List ℕ)
    → Ready m npages xs
    → (o : Option ℕ) × (search_begin npages m ≡ ok (o, m)) × FirstFit m npages xs o
search_begin-FirstFit m npages xs r =
    let (b, s, runs, found) =
      find_loop-Found list_fuel m.pool.node npages mmap_begin m.proc.mmap xs r.short r.chain
        r.sorted (omega arith) (omega arith) r.pos r.small in
    search_begin-Found m npages xs b s r.small runs found

-- The check of a given range reads the list to its end, or to the first region that overlaps.
overlap_loop-Free :
    (k : ℕ) (node : ℕ → Node) (b npages lo cur : ℕ) (xs : List ℕ)
    → length xs < k
    → Chain (nexts node) cur xs
    → Sorted node lo xs
    → mmap_begin ≤ lo
    → 0 < npages
    → npages < 2 ^ 20
    → b + npages * 4096 < 2 ^ 64
    → (r : Bool) × (overlap_loop k node b npages cur ≡ ok r)
      × ((r ≡ false) ↔ Free node b (npages * 4096) xs)
unfolding overlap_loop
overlap_loop-Free zero node b npages lo cur xs fuel c s lo1 pos small nowrap = absurd (omega arith)
overlap_loop-Free (suc k) node b npages lo cur [] fuel c s lo1 pos small nowrap =
    (false, rw (eq→== cur 0 c), (λ h. tt, λ h. refl))
overlap_loop-Free (suc k) node b npages lo cur (x ∷ xs) fuel (e, nz, c) (le, pos', fits, s) lo1 pos
      small nowrap =
    let (r, runs, free) =
      overlap_loop-Free k node b npages (stop (node x)) (node x).next xs (omega arith) c s
        (omega arith) pos small nowrap in
    elim (Bool-cases (ltb b (end_of (node x)) && ltb (node x).begin (add64 b (bytes_of npages)))) [
      | inl hit ↦ (true, rw (e, ne→== x 0 nz, hit), (λ h. cc, λ f. let g = f.0 in ground arith))
      | inr miss ↦
          (r, rw (e, ne→== x 0 nz, miss) runs, (λ h. (ground arith, free.0 h), λ f. free.1 f.1))
    ]

-- On such a list, and for a range whose end does not pass 2^64: asked for this range, `uvm_mmap`
-- goes on with it exactly if it overlaps no region, and changes nothing by the check.
pub check_begin-Free :
    (m : Machine) (b npages : ℕ) (xs : List ℕ)
    → Ready m npages xs
    → b + npages * 4096 < 2 ^ 64
    → (r : Bool) × (check_begin b npages m ≡ ok (if r then none else some b, m))
      × ((r ≡ false) ↔ Free m.pool.node b (npages * 4096) xs)
unfolding check_begin
check_begin-Free m b npages xs q nowrap =
    let (r, runs, free) =
      overlap_loop-Free list_fuel m.pool.node b npages mmap_begin m.proc.mmap xs q.short q.chain
        q.sorted (omega arith) q.pos q.small nowrap in
    (r, rw runs, free)
