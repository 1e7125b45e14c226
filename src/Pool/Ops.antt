-- ===== src/Pool/Ops.antt =====
-- What the operations of the node store do on every branch.
use biglab.Base.{
  ℕ, zero, suc, ◌+◌, ◌<◌, ◌≡◌, refl, sym, ◌≢◌, false, List, [], ◌∷◌, arith, ne→==, eq→==, update,
  Fresh, Distinct,
}
use mathlib.Core.Path.{subst}
use native.Mathlib.Numerals.{add-one}
use biglab.Base.Outcome.{ok}
use biglab.Lock.{spinlock_init}
use biglab.Lock.Sequential.{settle, acquire-ok, release-ok}
use biglab.Machine.{Node, Pool, Machine}
use biglab.Pool.{n_mmap, init_loop, mmap_init, mmap_region_alloc, mmap_region_free}
use biglab.Pool.Nodes.{Chain, links, Chain-update}

-- `xs` are the free nodes, in the order in which they will be given out.
pub record FreeNodes (p : Pool) (xs : List ℕ) : Type 0 where
  pub chain : Chain (links p.node) p.head xs
  pub distinct : Distinct xs
  pub lk_free : p.lk.locked ≡ false

-- The node with its region cleared.
abbrev pub cleared : Node → Node
cleared n = record n { begin = 0; npages = 0; next = 0 }

pub alloc-some :
    (m : Machine)
    → m.pool.lk.locked ≡ false
    → m.pool.head ≢ 0
    → mmap_region_alloc m
      ≡ ok (
        m.pool.head,
        record m {
          cpu = settle m.cpu;
          pool = record {
            node = update m.pool.node m.pool.head (cleared (m.pool.node m.pool.head));
            head = (m.pool.node m.pool.head).link;
            lk = spinlock_init;
          };
        },
      )
unfolding mmap_region_alloc
alloc-some m free ne =
    rw (acquire-ok m.cpu m.pool.lk free, ne→== m.pool.head 0 ne, release-ok m.cpu)

pub alloc-none :
    (m : Machine)
    → m.pool.lk.locked ≡ false
    → m.pool.head ≡ 0
    → mmap_region_alloc m
      ≡ ok (0, record m { cpu = settle m.cpu; pool = record m.pool { lk = spinlock_init } })
unfolding mmap_region_alloc
alloc-none m free e = rw (acquire-ok m.cpu m.pool.lk free, eq→== m.pool.head 0 e, release-ok m.cpu)

pub free-ok :
    (m : Machine) (x : ℕ)
    → m.pool.lk.locked ≡ false
    → mmap_region_free x m
      ≡ ok (
        tt,
        record m {
          cpu = settle m.cpu;
          pool = record {
            node = update m.pool.node x (record (m.pool.node x) { link = m.pool.head });
            head = x;
            lk = spinlock_init;
          };
        },
      )
unfolding mmap_region_free
free-ok m x free = rw (acquire-ok m.cpu m.pool.lk free, release-ok m.cpu)

-- The machine once the node `x` has been given out.
abbrev after_alloc : ℕ → Machine → Machine
after_alloc x m = record m {
  cpu = settle m.cpu;
  pool = record {
    node = update m.pool.node x (cleared (m.pool.node x));
    head = (m.pool.node x).link;
    lk = spinlock_init;
  };
}

-- With a free lock and a list of different free nodes, of which `x` is the first:
-- `mmap_region_alloc` returns `x` with its region cleared and takes it off the list; it changes
-- no other node, and neither memory nor the user region nor the process.
pub alloc-cons :
    (m : Machine) (x : ℕ) (xs : List ℕ)
    → FreeNodes m.pool (x ∷ xs)
    → (m' : Machine) × (mmap_region_alloc m ≡ ok (x, m'))
      × FreeNodes m'.pool xs
      × (m'.pool.node x ≡ cleared (m.pool.node x))
      × ((y : ℕ) → y ≢ x → m'.pool.node y ≡ m.pool.node y)
      × (m'.mem ≡ m.mem)
      × (m'.proc ≡ m.proc)
      × (m'.user ≡ m.user)
alloc-cons m x xs f = (
  after_alloc x m,
  subst (λ y. mmap_region_alloc m ≡ ok (y, after_alloc y m)) f.chain.0
      (alloc-some m f.lk_free nonzero),
  record {
    chain = Chain-update m.pool.node (λ n. n.link) _ x _ xs f.distinct.0 f.chain.2;
    distinct = f.distinct.1;
    lk_free = refl;
  },
  rw (eq→== x x refl),
  λ y ne. rw (ne→== x y (λ e. ne (sym e))),
  refl,
  refl,
  refl,
)
  where
    nonzero : m.pool.head ≢ 0
    nonzero = let c = f.chain in omega arith

-- With no free node `mmap_region_alloc` returns NULL and changes no node.
pub alloc-nil :
    (m : Machine)
    → FreeNodes m.pool []
    → (m' : Machine) × (mmap_region_alloc m ≡ ok (0, m'))
      × FreeNodes m'.pool []
      × (m'.pool.node ≡ m.pool.node)
      × (m'.mem ≡ m.mem)
alloc-nil m f = (
  _,
  alloc-none m f.lk_free f.chain,
  record { chain = f.chain; distinct = tt; lk_free = refl },
  refl,
  refl,
)

-- With a free lock and a list of different free nodes: `mmap_region_free` of a node that is not
-- on it puts the node at the head of the list; it leaves every region as it is, also that of the
-- node itself, and neither memory nor the user region nor the process changes.
pub free-cons :
    (m : Machine) (x : ℕ) (xs : List ℕ)
    → FreeNodes m.pool xs
    → x ≢ 0
    → Fresh x xs
    → (m' : Machine) × (mmap_region_free x m ≡ ok (tt, m'))
      × FreeNodes m'.pool (x ∷ xs)
      × ((y : ℕ) → y ≢ x → m'.pool.node y ≡ m.pool.node y)
      × (m'.pool.node x ≡ record (m.pool.node x) { link = m.pool.head })
      × (m'.mem ≡ m.mem)
      × (m'.proc ≡ m.proc)
      × (m'.user ≡ m.user)
free-cons m x xs f nz fresh = (
  _,
  free-ok m x f.lk_free,
  record {
    chain = (
      refl,
      nz,
      subst (λ q. Chain (links given) q xs) (sym head_given)
          (Chain-update m.pool.node (λ n. n.link) m.pool.head x _ xs fresh f.chain),
    );
    distinct = (fresh, f.distinct);
    lk_free = refl;
  },
  λ y ne. rw (ne→== x y (λ e. ne (sym e))),
  rw (eq→== x x refl),
  refl,
  refl,
  refl,
)
  where
    given : ℕ → Node
    given = update m.pool.node x (record (m.pool.node x) { link = m.pool.head })

    head_given : links given x ≡ m.pool.head
    head_given = ground (arith, eq→== x x refl)

-- The nodes 1 to `n`, the last one first.
unfoldable pub nodes_down : ℕ → List ℕ
nodes_down zero = []
nodes_down (suc n) = suc n ∷ nodes_down n

Fresh-nodes_down : (i j : ℕ) → j < i → Fresh i (nodes_down j)
unfolding nodes_down
Fresh-nodes_down i zero h = tt
Fresh-nodes_down i (suc j) h = (omega arith, Fresh-nodes_down i j (omega arith))

-- The store once the node `i + 1` has been put at the head.
abbrev linked : ℕ → Pool → Pool
linked i p = record p {
  node = update p.node (suc i) (record (p.node (suc i)) { link = p.head });
  head = suc i;
}

linked-FreeNodes :
    (i : ℕ) (p : Pool) → FreeNodes p (nodes_down i) → FreeNodes (linked i p) (nodes_down (suc i))
unfolding nodes_down
linked-FreeNodes i p f =
    let fresh : Fresh (suc i) (nodes_down i) = Fresh-nodes_down (suc i) i (omega arith) in
    record {
      chain = (
        refl,
        omega arith,
        subst (λ q. Chain (links (linked i p).node) q (nodes_down i)) (sym head_linked)
            (Chain-update p.node (λ n. n.link) p.head (suc i) _ (nodes_down i) fresh f.chain),
      );
      distinct = (fresh, f.distinct);
      lk_free = f.lk_free;
    }
  where
    head_linked : links (linked i p).node (suc i) ≡ p.head
    head_linked = ground (arith, eq→== (suc i) (suc i) refl)

init_loop-FreeNodes :
    (k i : ℕ) (p : Pool)
    → FreeNodes p (nodes_down i)
    → FreeNodes (init_loop k i p) (nodes_down (i + k))
unfolding init_loop nodes_down
init_loop-FreeNodes zero i p f = subst (λ n. FreeNodes p (nodes_down n)) (omega arith) f
init_loop-FreeNodes (suc k) i p f = rw add-one (
    subst (λ n. FreeNodes (init_loop k (suc i) (linked i p)) (nodes_down n)) to
      (init_loop-FreeNodes k (suc i) (linked i p) (linked-FreeNodes i p f)))
  where
    to : suc i + k ≡ i + suc k
    to = omega arith

no_nodes : (p : Pool) → FreeNodes (record p { lk = spinlock_init; head = 0 }) (nodes_down 0)
unfolding nodes_down
no_nodes p = record { chain = refl; distinct = tt; lk_free = refl }

-- `mmap_init` leaves a free lock and each of the N_MMAP nodes on the free list once, whatever
-- the store was.
pub mmap_init-FreeNodes : (p : Pool) → FreeNodes (mmap_init p) (nodes_down n_mmap)
unfolding mmap_init
mmap_init-FreeNodes p =
    init_loop-FreeNodes n_mmap 0 (record p { lk = spinlock_init; head = 0 }) (no_nodes p)
