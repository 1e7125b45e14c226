-- ===== src/Munmap/Rounds.antt =====
-- What one round of `uvm_munmap` leaves of a region.
use biglab.Base.{
  ℕ, ◌+◌, ◌-◌, ◌*◌, ◌/◌, ◌%◌, ◌≤◌, ◌<◌, ◌≡◌, refl, ap, ◌∙◌, eq→==, ◌⊎◌, inl, inr, ◌↔◌, true, arith,
  lt→ltb, le→leb, lt→leb, le→ltb, update,
}
use biglab.Base.Word.{sub64, u32, mmap_begin, mmap_end}
use biglab.Base.Outcome.{ok}
use biglab.Machine.{Node, Machine}
use biglab.Kvm.{vm_unmappages}
use biglab.Munmap.{move, bytes_of, end_of, trim_left, trim_right, munmap_round}

-- A region of whole pages between MMAP_BEGIN and MMAP_END.
pub record IsArea (n : Node) : Type 0 where
  pub aligned : n.begin % 4096 ≡ 0
  pub above : mmap_begin ≤ n.begin
  pub pos : 0 < n.npages
  pub below : n.begin + n.npages * 4096 ≤ mmap_end

-- The address lies in the region, or in the range.
abbrev pub Covers : Node → ℕ → Type 0
Covers n v = (n.begin ≤ v) × (v < n.begin + n.npages * 4096)

-- The unmapping of `len` bytes from `va` on ends in `m1`, with the nodes as they were.
pub record Unmaps (m : Machine) (va len : ℕ) (m1 : Machine) : Type 0 where
  pub runs : vm_unmappages m.proc.pgtbl va len true m ≡ ok (tt, m1)
  pub nodes : m1.pool.node ≡ m.pool.node

module _ (m m1 : Machine) (begin end npages pre cur : ℕ) (area : IsArea (m.pool.node cur))
    (al_begin : begin % 4096 ≡ 0) (al_end : end % 4096 ≡ 0) (lo : begin < end) where
  abbrev c : Node
  c = m.pool.node cur

  end_of_area : end_of c ≡ c.begin + c.npages * 4096
  end_of_area = omega arith

  -- What is left of the region once its part in the range is gone.
  unfoldable pub LeftOver : Node → Type 0
  LeftOver n = (v : ℕ) → Covers n v ↔ (Covers c v × ((v < begin) ⊎ (end ≤ v)))

  -- The machine once `cur` has been written after the unmapping.
  abbrev pub wrote : Node → Machine
  wrote n = record m1 { pool = record m1.pool { node = update m1.pool.node cur n } }

  -- The region with its left, or its right, part cut off.
  abbrev pub left_node : Node
  left_node = record (m1.pool.node cur) { begin = end; npages = u32 (sub64 (end_of c) end / 4096) }

  abbrev pub right_node : Node
  right_node = record (m1.pool.node cur) {
    npages = u32 (sub64 begin (m1.pool.node cur).begin / 4096);
  }

  trim_left-runs :
      c.begin < end
      → end < c.begin + c.npages * 4096
      → Unmaps m c.begin (end - c.begin) m1
      → trim_left end pre cur m ≡ ok (move pre cur, wrote left_node)
  unfolding trim_left
  trim_left-runs h2 h3 u =
      let len : bytes_of (u32 (sub64 end c.begin / 4096)) ≡ end - c.begin = omega arith in
      rw (len, u.runs)

  trim_right-runs :
      c.begin < begin
      → begin < c.begin + c.npages * 4096
      → Unmaps m begin (c.begin + c.npages * 4096 - begin) m1
      → trim_right begin cur m ≡ ok (move cur (m1.pool.node cur).next, wrote right_node)
  unfolding trim_right
  trim_right-runs h2 h3 u =
      let len : bytes_of (u32 (sub64 (end_of c) begin / 4096)) ≡ c.begin + c.npages * 4096 - begin =
        omega (arith, end_of_area) in
      rw (len, u.runs)

  pub keeps_right :
      (n : Node)
      → n.begin ≡ end
      → n.npages * 4096 + end ≡ c.begin + c.npages * 4096
      → begin ≤ c.begin
      → c.begin < end
      → end < c.begin + c.npages * 4096
      → LeftOver n
  unfolding LeftOver
  keeps_right n e size h1 h2 h3 v = (
    λ (p, q). ((omega arith, omega arith), inr (omega arith)),
    λ ((p, q), side). (omega arith, omega arith),
  )

  pub keeps_left :
      (n : Node)
      → n.begin ≡ c.begin
      → n.npages * 4096 + c.begin ≡ begin
      → c.begin < begin
      → begin < c.begin + c.npages * 4096
      → c.begin + c.npages * 4096 ≤ end
      → LeftOver n
  unfolding LeftOver
  keeps_left n e size h1 h2 h3 v = (
    λ (p, q). ((omega arith, omega arith), inl (omega arith)),
    λ ((p, q), side). (omega arith, omega arith),
  )

  pub munmap_round-left :
      begin ≤ c.begin
      → c.begin < end
      → end < c.begin + c.npages * 4096
      → Unmaps m c.begin (end - c.begin) m1
      → munmap_round begin end npages pre cur m ≡ ok (move pre cur, wrote left_node)
  unfolding munmap_round
  munmap_round-left h1 h2 h3 u =
      let e = end_of_area in
      rw
        (
          lt→leb (end_of c) begin (omega arith),
          lt→leb end c.begin h2,
          le→leb begin c.begin h1,
          lt→leb (end_of c) end (omega arith),
          le→ltb c.begin begin h1,
          lt→ltb end (end_of c) (omega arith),
        )
        (trim_left-runs h2 h3 u)

  pub munmap_round-right :
      c.begin < begin
      → begin < c.begin + c.npages * 4096
      → c.begin + c.npages * 4096 ≤ end
      → Unmaps m begin (c.begin + c.npages * 4096 - begin) m1
      → munmap_round begin end npages pre cur m ≡ ok (move cur c.next, wrote right_node)
  unfolding munmap_round
  munmap_round-right h1 h2 h3 u =
      let e = end_of_area in
      let next : (m1.pool.node cur).next ≡ c.next = ap (λ f. (f cur).next) u.nodes in
      rw
        (
          lt→leb (end_of c) begin (omega arith),
          lt→leb end c.begin (omega arith),
          lt→leb begin c.begin h1,
          lt→ltb c.begin begin h1,
          le→ltb end (end_of c) (omega arith),
          le→leb (end_of c) end (omega arith),
        )
        (trim_right-runs h1 h2 u ∙ rw next)

  -- For a region of whole pages between MMAP_BEGIN and MMAP_END and an aligned range that
  -- covers its left part only, where the unmapping of that part returns and leaves the nodes:
  -- the round ends, goes on with the same region, and leaves it with exactly its addresses
  -- outside the range.
  pub munmap_round-trims_left :
      begin ≤ c.begin
      → c.begin < end
      → end < c.begin + c.npages * 4096
      → Unmaps m c.begin (end - c.begin) m1
      → (m' : Machine) × (munmap_round begin end npages pre cur m ≡ ok (move pre cur, m'))
        × LeftOver (m'.pool.node cur)
  unfolding LeftOver
  munmap_round-trims_left h1 h2 h3 u =
      let e = end_of_area in
      (
        wrote left_node,
        munmap_round-left h1 h2 h3 u,
        rw (eq→== cur cur refl) (keeps_right left_node refl (omega arith) h1 h2 h3),
      )

  -- The same for a range that covers the right part of the region only, where the round goes
  -- on behind the region.
  pub munmap_round-trims_right :
      c.begin < begin
      → begin < c.begin + c.npages * 4096
      → c.begin + c.npages * 4096 ≤ end
      → Unmaps m begin (c.begin + c.npages * 4096 - begin) m1
      → (m' : Machine) × (munmap_round begin end npages pre cur m ≡ ok (move cur c.next, m'))
        × LeftOver (m'.pool.node cur)
  munmap_round-trims_right h1 h2 h3 u =
      let e = end_of_area in
      let first : (m1.pool.node cur).begin ≡ c.begin = ap (λ f. (f cur).begin) u.nodes in
      (
        wrote right_node,
        munmap_round-right h1 h2 h3 u,
        rw (eq→== cur cur refl) (keeps_left right_node first (omega arith) h1 h2 h3),
      )
