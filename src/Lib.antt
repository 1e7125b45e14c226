-- ===== src/Lib.antt =====
-- A model of the kernel under src/kernel: a RISC-V kernel for one user process with spin locks,
-- physical pages, Sv39 page tables, user memory with heap, stack and mmap, traps and system calls.
--
-- The parts and how they interact. A trap from user mode (trap/trap_user.c) runs a system call
-- (syscall/syscall.c, syscall/sysfunc.c) or grows the stack. The calls change user memory
-- (mem/uvm.c) over the page tables (mem/kvm.c), the physical pages (mem/pmem.c) and the store of
-- mmap nodes (mem/mmap.c), each of the last two under its spin lock (lock/spinlock.c). A program
-- (the folder src/user) enters and leaves through trap/trampoline.S. Other paths are from the folder
-- src/kernel of the repository.
--
-- The files and what they model:
--   * Base: Boolean tests, lists over the native numbers, machine words with their wrap-around and
--     the page arithmetic of mem/type.h, and outcomes (a result, a panic, a wait without end).
--   * Lock: lock/spinlock.c. Lock/Sequential is about one hart. Lock/Concurrent takes any number of
--     harts, and each step is one access to the shared lock.
--   * Arch: arch/method.h, each access to a register as a function of a record of registers, and
--     lib/cpu.c. Arch/Switch has `push_off` and `pop_off` over these registers and the array of
--     harts; Lock has them over the depth and the switch of the one hart, the view of Arch/Switch.
--   * Memory: lib/utils.c over memory as a function from addresses to bytes; words are eight bytes,
--     the lowest first.
--   * Machine: the kernel's state on one hart, and commands, which are functions from a state to an
--     outcome. `assert` and `panic` end a command with the outcome `panic`.
--   * Pmem: mem/pmem.c. The free list lies in the pages themselves; `FreePages` says which pages it
--     holds. Pmem/Spec is its specification, lists of pages in use and free; Pmem/Holds says how
--     the kernel's state shows it, and Pmem/Refine that the code implements it.
--   * Kvm: mem/kvm.c. `Path3` is the path of entries from the root to the last table.
--     Kvm/Build is about a walk that makes the tables. Kvm/Backed takes a run of pages with tables,
--     each mapped to a page of its own or not mapped, and Kvm/AddPage and Kvm/Filled add a page and
--     a range to it. Listing has `vm_print` and `uvm_show_mmaplist`, with
--     which `uvm_mmap` and `uvm_munmap` end.
--   * Pool: mem/mmap.c. A pointer to a node is its index plus 1.
--   * Copy, Heap, Stack, Munmap, Mmap: mem/uvm.c, in the order of that file but for `uvm_munmap`,
--     which `uvm_mmap` calls. Munmap/Goes says what the loop of `uvm_munmap` does to the rest of
--     the list, and Munmap/Cases, Cuts, Drop and Split are its rounds; what it relies on of the page
--     tables is the interface `Unmapping`, which Munmap/Process fills. Mmap/Slots, Joins,
--     Insert and Place are about the place of a new region in the list, Mmap/Filling about its
--     pages, Mmap/Request, Whole and Undone about the call as a whole and its reversal. Heap/Growing
--     is about several pages of heap, Copy/Pages about whole pages, Copy/Strings about strings.
--     PageTables: the end of that file, `uvm_destroy_pgtbl` and `uvm_copy_pgtbl`.
--   * Syscall: syscall/syscall.c and syscall/sysfunc.c. Trap: trap/trap_user.c. Trap/Trampoline:
--     trap/trampoline.S; an address is translated by the page table that satp names.
--   * User: the wrappers in src/user/syscall_arch.h and src/user/sys.h and the calls of
--     src/user/initcode.c. User/Calls and User/Round follow a call from the program into the kernel
--     and back.
--   * Console: lib/uart.c. Print: lib/print.c, the text; Print/Output: its lock, the console and
--     `panic`. Interrupt: trap/timer.c and trap/trap_kernel.c.
--   * Boot: `pmem_init`, `kvm_init` and proc/proc.c. Boot/Prepared, StackTable, Stacked, Frame,
--     AddressSpace, Program and Make follow `proc_make_first` in its order, up to Boot/FirstProcess
--     and Boot/Departure. Boot/Harts: main.c with any number of harts, each call a step.
--   * Devices: boot/start.c, trap/plic.c and the initialisation in trap/timer.c, trap/trap_kernel.c,
--     mem/kvm.c and lib/uart.c. Device registers are a function of their address.
--   * Examples: the theorems at concrete arguments.
--
-- Bounds and fuel. Numbers are natural numbers below 2 ^ 64; sums, differences and products that
-- wrap in the source wrap here. Loops over pages run on fuel that their caller computes from the
-- length, one or two rounds more than there are pages. A walk over the mmap list has 300 rounds, as
-- the store has 256 nodes, and `uvm_munmap` 1024, as each node is met at most a few times. A copy
-- has one round for each page below VA_MAX and two more. A loop without fuel is the outcome
-- `out_of_fuel`; the theorems that say that a function returns exclude it.
--
-- Not modelled: the assembly but for trap/trampoline.S (boot/entry.S, trap/trap.S and proc/swtch.S,
-- which keep stacks and contexts of the kernel that nothing else reads), `sfence_vma`, the lines
-- that the memory calls print (the assertions of the listing at their end are kept), the console
-- output by system calls and trap handlers with the tables of its messages, the reception of a byte
-- by lib/uart.c, faults of the kernel's own accesses, an int `noff` beyond 2^31 - 1, and memory
-- ordering: a shared access takes effect at once. The linker's addresses, the array `initcode` that
-- the build generates, and the values of registers are parameters.
pub mod Base
pub mod Lock
pub mod Memory
pub mod Machine
pub mod Pmem
pub mod Kvm
pub mod Pool
pub mod Munmap
pub mod Mmap
pub mod Copy
pub mod Heap
pub mod Stack
pub mod Syscall
pub mod Trap
pub mod Console
pub mod Print
pub mod Interrupt
pub mod Boot
pub mod Examples
pub mod PageTables
pub mod Listing
pub mod Devices
pub mod Arch
pub mod User
