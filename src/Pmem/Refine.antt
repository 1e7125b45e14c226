-- ===== src/Pmem/Refine.antt =====
-- The allocator does what `Pmem/Spec` says, whatever its clients write to the pages they hold.
use biglab.Base.{
  ℕ, ◌+◌, ◌≤◌, ◌<◌, ◌≡◌, refl, ◌⊎◌, inl, inr, Bool, true, false, not, List, [], ◌∷◌, ◌++◌, arith,
  Distinct,
}
use mathlib.Core.Path.{subst}
use biglab.Base.Outcome.{ok}
use biglab.Memory.{Mem, store64}
use biglab.Memory.Words.{store64_out}
use biglab.Machine.{Machine, Cmd, pure, ◌>>=◌, ◌>>◌, write64}
use biglab.Pmem.{select_region, pmem_alloc, pmem_free}
use biglab.Pmem.Pages.{IsPage, FreePages}
use biglab.Pmem.Alloc.{pmem_alloc-cons}
use biglab.Pmem.Free.{pmem_free-cons}
use biglab.Base.Disjoint.{Distinct-gives}
use biglab.Pmem.Spec.{
  Spec, region_pages, with_pages, Takes, Op, alloc, free, write, Does, gives, returns, writes, Runs,
  done, step, Distinct-returns, Takes-Fresh, Takes-All,
}
use biglab.Pmem.Holds.{
  Shows, Links, Holds-Links, Links-apart, Links-Fresh, two_regions, All-IsPage, Shows-call,
}

-- The calls in the kernel's state.
unfoldable pub exec : Op → Cmd ℕ
exec (alloc k) = pmem_alloc k
exec (free k x) = do pmem_free x k; pure 0
exec (write a v) = do write64 a v; pure 0

unfoldable pub exec_all : List Op → Cmd (List ℕ)
unfolding exec
exec_all [] = pure []
exec_all (op ∷ ops) = do r ← exec op; rs ← exec_all ops; pure (r ∷ rs)

alloc-Shows :
    (k : Bool) (m : Machine) (s : Spec) (x : ℕ) (xs : List ℕ)
    → Shows m s
    → (region_pages k s).free ≡ x ∷ xs
    → (m' : Machine) × (exec (alloc k) m ≡ ok (x, m'))
      × Shows m' (with_pages k (record { used = x ∷ (region_pages k s).used; free = xs }) s)
unfolding exec
alloc-Shows k m s x xs h e =
    let g = h.holds k in
    let f : FreePages m.mem (select_region k m) (x ∷ xs) =
      subst (λ l. FreePages m.mem (select_region k m) l) e g.free in
    let d : Distinct ((region_pages k s).used ++ (x ∷ xs)) =
      subst (λ l. Distinct ((region_pages k s).used ++ l)) e g.distinct in
    let (ip, _) = f.pages in
    let (m', runs, a) = pmem_alloc-cons k m x xs g.region f in
    (
      m',
      runs,
      Shows-call k m m' s _ x h ip a.same a.other a.begin a.end (record {
        region = a.kept;
        free = a.free;
        used = All-IsPage _ _ (x ∷ (region_pages k s).used) a.begin a.end (ip, g.used);
        distinct = Distinct-gives x (region_pages k s).used xs d;
      }),
    )

free-Shows :
    (k : Bool) (m : Machine) (s : Spec) (x : ℕ) (us : List ℕ)
    → Shows m s
    → Takes x (region_pages k s).used us
    → (m' : Machine) × (exec (free k x) m ≡ ok (0, m'))
      × Shows m' (with_pages k (record { used = us; free = x ∷ (region_pages k s).free }) s)
unfolding exec
free-Shows k m s x us h t =
    let g = h.holds k in
    let xs = (region_pages k s).free in
    let (ip, ips) = Takes-All (IsPage (select_region k m)) x (region_pages k s).used us t g.used in
    let (m', runs, a) =
      pmem_free-cons k m x xs g.region g.free ip
        (Takes-Fresh x (region_pages k s).used us xs t g.distinct) in
    (
      m',
      rw runs,
      Shows-call k m m' s _ x h ip (λ b out. a.same b (omega arith)) a.other a.begin a.end
          (record {
            region = a.kept;
            free = a.free;
            used = All-IsPage _ _ us a.begin a.end ips;
            distinct = Distinct-returns x (region_pages k s).used us xs t g.distinct;
          }),
    )

-- Writing into a page in use leaves the links of every free page.
Links-write :
    (k j : Bool) (m : Machine) (s : Spec) (x a v : ℕ) (us : List ℕ)
    → Shows m s
    → Takes x (region_pages k s).used us
    → x ≤ a
    → a + 8 ≤ x + 4096
    → (j ≡ k) ⊎ (j ≡ not k)
    → Links m.mem (store64 m.mem a v) (region_pages j s).free
Links-write k j m s x a v us h t lo hi which =
    let g = h.holds k in
    let (ip, _) = Takes-All (IsPage (select_region k m)) x (region_pages k s).used us t g.used in
    let same : (b : ℕ) → (b < x) ⊎ (x + 4096 ≤ b) → store64 m.mem a v b ≡ m.mem b =
      λ b out. store64_out m.mem a v b (omega arith) in
    elim which [
      | inl e ↦ rw e (
          Links-Fresh m.mem (store64 m.mem a v) (select_region k m) x (region_pages k s).free ip
            same g.free.pages
            (Takes-Fresh x (region_pages k s).used us (region_pages k s).free t g.distinct))
      | inr e ↦ rw e (
          Links-apart m.mem (store64 m.mem a v) (select_region k m) (select_region (not k) m) x
            (region_pages (not k) s).free g.region (h.holds (not k)).region
            (two_regions k m h.apart) ip same (h.holds (not k)).free.pages)
    ]

same_or_other : (k j : Bool) → (j ≡ k) ⊎ (j ≡ not k)
same_or_other true true = inl refl
same_or_other true false = inr refl
same_or_other false true = inr refl
same_or_other false false = inl refl

select_region_mem :
    (j : Bool) (m : Machine) (mem : Mem)
    → select_region j (record m { mem = mem }) ≡ select_region j m
select_region_mem true m mem = refl
select_region_mem false m mem = refl

write-Shows :
    (k : Bool) (m : Machine) (s : Spec) (x a v : ℕ) (us : List ℕ)
    → Shows m s
    → Takes x (region_pages k s).used us
    → x ≤ a
    → a + 8 ≤ x + 4096
    → (m' : Machine) × (exec (write a v) m ≡ ok (0, m')) × Shows m' s
unfolding exec
write-Shows k m s x a v us h t lo hi =
    let mem' = store64 m.mem a v in
    (
      record m { mem = mem' },
      refl,
      record {
        holds = λ j. rw (select_region_mem j m mem') (
            Holds-Links m.mem mem' (select_region j m) (region_pages j s)
              (Links-write k j m s x a v us h t lo hi (same_or_other k j)) (h.holds j));
        apart = h.apart;
      },
    )

exec-Shows :
    (m : Machine) (s : Spec) (op : Op) (r : ℕ) (s' : Spec)
    → Shows m s
    → Does s op r s'
    → (m' : Machine) × (exec op m ≡ ok (r, m')) × Shows m' s'
exec-Shows m s op r s' h (gives k x xs e) = alloc-Shows k m s x xs h e
exec-Shows m s op r s' h (returns k x us t) = free-Shows k m s x us h t
exec-Shows m s op r s' h (writes k x a v us t lo hi) = write-Shows k m s x a v us h t lo hi

-- The allocator implements the specification: if the kernel's state shows an abstract state (for
-- each region, the list of the pages in use and that of the free pages, all of them different,
-- and the kernel region below the user region), and the specification allows a run from it, in
-- which a client gives back and writes to pages in use only and allocates only where a page is
-- free, then the same calls and writes end without an assertion that fails, with the results of
-- that run, in a state that shows its last abstract state.
pub exec_all-Runs :
    (m : Machine) {s s' : Spec} {ops : List Op} {rs : List ℕ}
    → Shows m s
    → Runs s ops rs s'
    → (m' : Machine) × (exec_all ops m ≡ ok (rs, m')) × Shows m' s'
unfolding exec_all
exec_all-Runs m h done = (m, refl, h)
exec_all-Runs m h (step {s} {t} {u} {op} {r} {ops} {rs} d ds) =
    let (n, first, hn) = exec-Shows m s op r t h d in
    let (m', rest, hm) = exec_all-Runs n hn ds in (m', rw (first, rest), hm)
