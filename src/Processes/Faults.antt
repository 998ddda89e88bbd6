-- ===== src/Processes/Faults.antt =====
-- What the page fault handler does with a fault of user code.
use ose.Prelude.{
  ℕ, ◌+◌, ◌*◌, ◌/◌, ◌%◌, ◌≤◌, ◌<◌, ◌≡◌, ◌⊎◌, inl, inr, refl, arith, true, false, ◌==◌, ◌&&◌, leb,
  ltb, List, has, length, some, if◌then◌else◌, Bool-cases,
}
use ose.Prelude.Outcome.{ok}
use ose.Memory.Pages.Supply.{supply}
use ose.Paging.{entry, is_mounted}
use ose.Paging.Kernel.{MapsKernel}
use ose.Paging.Space.{IsSmall, IsSpace}
use ose.Paging.Stack.{grow_stack-Grown}
use ose.Paging.Release.{owned_by, Owns}
use ose.Processes.{
  IntraContext, Kernel, set_process, Message, npe, soe, ub, resumed, ended, user_flag,
  pagefault_handler, end_process,
}
use ose.Processes.Start.{IsStarted}
use ose.Processes.Ends.{end_process-IsStarted}

-- After a fault of user code at an address of the stack below its lowest page, at most `n` pages
-- below, with a supply of two frames for each of these, the process goes on: the address is mounted,
-- what was mounted still is, and the lowest page of the process is the page of the address.
pub pagefault_handler-resumed :
    (error_code cr2 n : ℕ) (k : Kernel) (free used : List ℕ)
    → let node = k.scheduler.current_process in
      let pdt = k.scheduler.first_word node in
      let lowest = (k.processes node).lowest_stack_page in
      user_flag error_code ≡ true
      → IsSpace k.frames free used pdt
      → IsSmall k.frames.ram pdt 1
      → 0x400000 ≤ cr2
      → cr2 < lowest
      → lowest ≤ 0x800000
      → lowest % 0x1000 ≡ 0
      → lowest ≤ cr2 + n * 0x1000
      → n ≤ 1024
      → 2 * n ≤ supply k.frames free
      → (k' : Kernel) × (free' : List ℕ) × (used' : List ℕ) × (pagefault_handler error_code cr2 k
          ≡ ok (some (resumed k')))
        × IsSpace k'.frames free' used' pdt
        × (is_mounted pdt cr2 k'.frames ≡ true)
        × ((a : ℕ)
            → a < 4294967296
            → is_mounted pdt a k.frames ≡ true
            → is_mounted pdt a k'.frames ≡ true)
        × (k'.scheduler ≡ k.scheduler)
        × ((k'.processes node).lowest_stack_page ≡ cr2 / 0x1000 * 0x1000)
unfolding pagefault_handler
pagefault_handler-resumed error_code cr2 n k free used u v small lo below top al room many
      supplied =
    let node = k.scheduler.current_process in
    let pdt = k.scheduler.first_word node in
    let p = k.processes node in
    let (low, s', free', used', e, g) =
      grow_stack-Grown 1025 n k.frames free used pdt cr2 p.lowest_stack_page v small supplied
        (omega arith) lo top al room in
    let not_null : ltb cr2 0x7000 ≡ false = ground arith in
    let not_kernel : (leb 0x80000 cr2 && ltb cr2 0x400000) ≡ false = ground arith in
    let stack : (leb 0x400000 cr2 && ltb cr2 0x800000) ≡ true = ground arith in
    let same : (node == node) ≡ true = ground arith in
    let reached = g.reached in
    let aligned = g.aligned in
    let near : cr2 < low + 0x1000 = elim g.near [ inl q ↦ absurd (omega arith) | inr q ↦ q ] in
    (
      record k {
        frames = s';
        processes = set_process node (record p { lowest_stack_page = low }) k.processes;
      },
      free',
      used',
      rw (u, not_null, not_kernel, stack, e) refl,
      g.grows.space,
      g.mounted cr2 reached below,
      g.grows.keeps,
      refl,
      rw same (omega arith),
    )

-- What is printed for an address outside the stack.
abbrev pub message_for : ℕ → Message
message_for cr2 =
    if ltb cr2 0x7000 then npe else if leb 0x80000 cr2 && ltb cr2 0x400000 then soe else ub

-- The handler outside the stack is the end of the process with that message.
pub ended_eq :
    (error_code cr2 : ℕ) (k : Kernel) (pdt' : ℕ) (ctx : IntraContext) (k' : Kernel)
    → user_flag error_code ≡ true
    → (cr2 < 0x400000) ⊎ (0x800000 ≤ cr2)
    → end_process k ≡ ok (pdt', ctx, k')
    → pagefault_handler error_code cr2 k ≡ ok (some (ended (message_for cr2) pdt' ctx k'))
unfolding pagefault_handler
ended_eq error_code cr2 k pdt' ctx k' u outside e =
    let not_stack : (leb 0x400000 cr2 && ltb cr2 0x800000) ≡ false = ground arith in
    elim (Bool-cases (ltb cr2 0x7000)) [
      | inl a ↦ rw (u, a, e) refl
      | inr a ↦ elim (Bool-cases (leb 0x80000 cr2 && ltb cr2 0x400000)) [
        | inl b ↦ rw (u, a, b, e) refl
        | inr b ↦ rw (u, a, b, not_stack, e) refl
      ]
    ]

-- A fault of user code outside the stack ends the process, with the message for the address, and the
-- next one in turn, which is the same or has no address space, starts from its beginning, when the
-- frames left and those of the process that ends can give it an address space.
pub pagefault_handler-ended :
    (error_code cr2 : ℕ) (k : Kernel) (free used : List ℕ) (kernel_pt node : ℕ)
    → let pdt = k.scheduler.first_word k.scheduler.current_process in
      user_flag error_code ≡ true
      → (cr2 < 0x400000) ⊎ (0x800000 ≤ cr2)
      → Owns k.frames free used pdt
      → has kernel_pt used ≡ true
      → has kernel_pt (owned_by k.frames.ram pdt) ≡ false
      → MapsKernel k.frames.ram kernel_pt
      → k.kernel_pde ≡ entry true true (kernel_pt / 0x1000)
      → 3 ≤ supply k.frames free + length (owned_by k.frames.ram pdt)
      → k.scheduler.next k.scheduler.current_process ≡ node
      → (node ≡ k.scheduler.current_process) ⊎ (k.scheduler.first_word node ≡ 0)
      → (pdt' : ℕ) × (ctx : IntraContext) × (k' : Kernel) × (pagefault_handler error_code cr2 k
          ≡ ok (some (ended (message_for cr2) pdt' ctx k')))
        × IsStarted node (k.processes node).executable pdt' ctx k'
pagefault_handler-ended error_code cr2 k free used kt node u outside o held apart maps pde room turn
      fresh =
    let (pdt', ctx, k', e, started) =
      end_process-IsStarted k free used kt node o held apart maps pde room turn fresh in
    (pdt', ctx, k', ended_eq error_code cr2 k pdt' ctx k' u outside e, started)
