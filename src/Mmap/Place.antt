-- ===== src/Mmap/Place.antt =====
-- `uvm_mmap` from the choice of the address up to the mapping of the pages.
use biglab.Base.{
  ℕ, ◌+◌, ◌*◌, ◌/◌, ◌≤◌, ◌≡◌, refl, sym, ◌∙◌, ap, ◌≢◌, ◌⊎◌, inl, inr, ◌↔◌, List, [], ◌∷◌, ◌++◌,
  arith, All, Fresh, Distinct, length, length-append, update, eq→==, ne→==,
}
use mathlib.Core.Path.{subst}
use biglab.Base.Disjoint.{Fresh-middle, Distinct-gives}
use biglab.Base.Word.{mmap_begin, add64}
use biglab.Base.Outcome.{ok}
use biglab.Machine.{Node, Machine}
use biglab.Pool.{n_mmap, dummy_head}
use biglab.Munmap.{bytes_of}
use biglab.Munmap.Rounds.{IsArea, Covers}
use biglab.Munmap.Regions.{
  Covered, Same, Same-sym, Areas, Areas-congr, Sorted-congr, Sorted-lower, Covered-congr,
  Covered-above, Fresh-left, Fresh-right, FreeNodes-write, nexts-congr,
}
use biglab.Munmap.Whole.{HasRegions}
use biglab.Mmap.{place_region, position_loop, map_region_loop, mmap_merge, list_fuel}
use biglab.Mmap.Areas.{stop, Sorted, Free}
use biglab.Mmap.Slots.{Slot, Inserted}
use biglab.Mmap.Insert.{place-Inserted}

pub Free-congr :
    (f g : ℕ → Node) (v n : ℕ) (ys : List ℕ) → Same f g ys → Free f v n ys → Free g v n ys
Free-congr f g v n [] s h = tt
Free-congr f g v n (y ∷ ys) (e, s) (h, hs) = rw e (h, Free-congr f g v n ys s hs)

pub Begins-congr :
    (f g : ℕ → Node) (e : ℕ) (ys : List ℕ)
    → Same f g ys
    → All (λ y. (f y).begin ≢ e) ys
    → All (λ y. (g y).begin ≢ e) ys
Begins-congr f g e [] s h = tt
Begins-congr f g e (y ∷ ys) (q, s) (h, hs) =
    (λ r. h (sym (ap (λ z. z.begin) q) ∙ r), Begins-congr f g e ys s hs)

module _ (m : Machine) (cur b : ℕ) (xs fs : List ℕ) where
  -- The new region at its address.
  abbrev pub placed : Node
  placed = record (m.pool.node cur) { begin = b }

  abbrev empty_head : Node
  empty_head = record { begin = 0; npages = 0; next = m.proc.mmap; link = 0 }

  -- The state in which the search for the place begins.
  abbrev before_search : Machine
  before_search = record m {
    pool = record m.pool { node = update (update m.pool.node cur placed) dummy_head empty_head };
  }

  abbrev stored : Machine → Machine
  stored a = record a { proc = record a.proc { mmap = (a.pool.node dummy_head).next } }

  place_region-runs :
      (a : Machine) (p len npages prot : ℕ)
      → position_loop list_fuel before_search.pool.node b dummy_head ≡ ok p
      → mmap_merge p cur before_search ≡ ok (tt, a)
      → place_region b len npages prot cur m
        ≡ map_region_loop
            (bytes_of npages / 4096 + 1)
            b
            len
            (add64 b (bytes_of npages))
            prot
            b
            (stored a)
  unfolding place_region
  place_region-runs a p len npages prot found merged = rw (found, merged)

  Sorted-Areas :
      (f : ℕ → Node) (lo : ℕ) (ys : List ℕ) → Areas f ys → Sorted f lo ys → Sorted f mmap_begin ys
  Sorted-Areas f lo [] a s = tt
  Sorted-Areas f lo (y ∷ ys) (a, _) (le, pos, fits, s) = (a.above, pos, fits, s)

  -- A region that can be placed at `b`: whole pages between MMAP_BEGIN and MMAP_END, which no
  -- region covers, and behind which none begins at once; its node is not in use otherwise.
  pub record Placeable : Type 0 where
    pub regions : HasRegions m xs fs
    pub new : IsArea placed
    pub nz : cur ≢ 0
    pub room : Free m.pool.node b ((m.pool.node cur).npages * 4096) xs
    pub apart : All (λ x. (m.pool.node x).begin ≢ stop placed) xs
    pub distinct : Distinct (dummy_head ∷ (xs ++ (cur ∷ fs)))
    pub count : length (xs ++ (cur ∷ fs)) ≤ n_mmap

  Same-before : Placeable → Same m.pool.node before_search.pool.node xs
  Same-before h =
      let (fresh, d) = h.distinct in
      let (fresh_cur, _) = Distinct-gives cur xs fs d in
      go xs (Fresh-left dummy_head xs fs (Fresh-middle dummy_head cur xs fs fresh).1)
        (Fresh-left cur xs fs fresh_cur)
    where
      go :
          (ys : List ℕ)
          → Fresh dummy_head ys
          → Fresh cur ys
          → Same m.pool.node before_search.pool.node ys
      go [] f g = tt
      go (y ∷ ys) (n, f) (n', g) = (rw (ne→== dummy_head y n, ne→== cur y n'), go ys f g)

  here_cur : Placeable → before_search.pool.node cur ≡ placed
  here_cur h =
      let (fresh, _) = h.distinct in
      let (ne, _) = Fresh-middle dummy_head cur xs fs fresh in
      rw (ne→== dummy_head cur ne, eq→== cur cur refl)

  slot : Placeable → Slot before_search cur fs dummy_head xs
  slot h =
      let (fresh, d) = h.distinct in
      let (fresh_cur, _) = Distinct-gives cur xs fs d in
      let (ne, fresh') = Fresh-middle dummy_head cur xs fs fresh in
      let same = Same-before h in
      let r = h.new in
      let here = here_cur h in
      record {
        new = rw here r;
        nz = h.nz;
        pre_nz = omega arith;
        chain = nexts-congr m.pool.node before_search.pool.node m.proc.mmap xs same h.regions.chain;
        areas = Areas-congr m.pool.node before_search.pool.node xs same h.regions.areas;
        sorted =
            Sorted-lower before_search.pool.node mmap_begin 0 xs (omega arith) (
              Sorted-congr m.pool.node before_search.pool.node mmap_begin xs same h.regions.sorted);
        before = omega arith;
        small = omega arith;
        room = rw here (Free-congr m.pool.node before_search.pool.node b _ xs same h.room);
        apart =
            rw here
              (Begins-congr m.pool.node before_search.pool.node (stop placed) xs same h.apart);
        free =
            FreeNodes-write (record m.pool { node = update m.pool.node cur placed }) dummy_head
              empty_head fs (Fresh-right dummy_head xs fs fresh')
              (FreeNodes-write m.pool cur placed fs (Fresh-right cur xs fs fresh_cur)
                h.regions.free);
        distinct = h.distinct;
      }

  -- The regions afterwards are as before, and cover the new one too.
  pub record Places (m' : Machine) : Type 0 where
    pub ys : List ℕ
    pub gs : List ℕ
    pub regions : HasRegions m' ys gs
    pub freed : length fs ≤ length gs
    pub covers : (v : ℕ) → Covered m'.pool.node ys v ↔ (Covered m.pool.node xs v ⊎ Covers placed v)
    pub mem : m'.mem ≡ m.mem
    pub user : m'.user ≡ m.user
    pub pgtbl : m'.proc.pgtbl ≡ m.proc.pgtbl

  -- `dummy_head` covers nothing before, and so nothing afterwards.
  head_empty :
      (a : Machine)
      → Placeable
      → Inserted before_search cur fs dummy_head xs a
      → (v : ℕ) → ¬ Covers (a.pool.node dummy_head) v
  head_empty a h g v (p, q) =
      let begin : (a.pool.node dummy_head).begin ≡ 0 = g.begin_kept in
      let same = Same-before h in
      let r = h.new in
      let here = here_cur h in
      elim ((g.covers 0).0 (inl (omega arith, omega arith))) [
        | inl (inl (p', q')) ↦ absurd (omega arith)
        | inl (inr e) ↦ absurd (
            omega (
              arith,
              Covered-above m.pool.node mmap_begin xs 0 h.regions.sorted
                  (Covered-congr before_search.pool.node m.pool.node xs 0 (Same-sym _ _ xs same) e),
            ))
        | inr e ↦ let (p', q') = subst (λ y. Covers y 0) here e in absurd (omega arith)
      ]

  Inserted-Places :
      (a : Machine) → Placeable → Inserted before_search cur fs dummy_head xs a → Places (stored a)
  Inserted-Places a h g =
      let same = Same-before h in
      let here = here_cur h in
      record {
        ys = g.ys;
        gs = g.gs;
        regions = record {
          chain = g.chain;
          areas = g.areas;
          sorted = Sorted-Areas a.pool.node _ g.ys g.areas g.sorted;
          free = g.free;
          distinct = g.distinct;
          count = omega (arith, g.count, h.count);
        };
        freed = g.freed;
        covers = λ v. (
          λ d. elim ((g.covers v).0 (inr d)) [
            | inl (inl (p, q)) ↦ absurd (omega arith)
            | inl (inr e) ↦
                inl
                  (Covered-congr before_search.pool.node m.pool.node xs v (Same-sym _ _ xs same) e)
            | inr e ↦ inr (subst (λ y. Covers y v) here e)
          ],
          λ d.
              let old : (Covers empty_head v ⊎ Covered before_search.pool.node xs v)
                  ⊎ Covers (before_search.pool.node cur) v =
                elim d [
                  | inl e ↦
                      inl (inr (Covered-congr m.pool.node before_search.pool.node xs v same e))
                  | inr e ↦ inr (subst (λ y. Covers y v) (sym here) e)
                ] in
              elim ((g.covers v).1 old) [ inl e ↦ absurd (head_empty a h g v e) | inr e ↦ e ],
        );
        mem = g.mem;
        user = g.user;
        pgtbl = ap (λ p. p.pgtbl) g.proc;
      }

  -- For a process whose mmap regions are whole pages between MMAP_BEGIN and MMAP_END, in order
  -- and apart, in different nodes of the store, and a node `cur` that is neither a region nor
  -- free, with pages that at the address `b` lie between MMAP_BEGIN and MMAP_END and overlap
  -- no region, where no region begins at the end of the new one: `uvm_mmap`, once it has
  -- chosen `b`, puts the new region into the list and goes on with the loop that maps its
  -- pages, in a state whose regions are again such regions and cover exactly what they covered
  -- before and the new range. Memory and the page table pointer are as before.
  pub place_region-Places :
      (len npages prot : ℕ)
      → Placeable
      → (m' : Machine) × (place_region b len npages prot cur m
          ≡ map_region_loop
              (bytes_of npages / 4096 + 1)
              b
              len
              (add64 b (bytes_of npages))
              prot
              b
              m')
        × Places m'
  place_region-Places len npages prot h =
      let here = here_cur h in
      let g =
        place-Inserted before_search cur fs list_fuel dummy_head xs
          (omega (arith, h.count, length-append xs (cur ∷ fs))) (slot h) in
      let found : position_loop list_fuel before_search.pool.node b dummy_head ≡ ok g.p =
        subst (λ y. position_loop list_fuel before_search.pool.node y.begin dummy_head ≡ ok g.p)
          here g.found in
      (
        stored g.after,
        place_region-runs g.after g.p len npages prot found g.merged,
        Inserted-Places g.after h g.inserted,
      )
