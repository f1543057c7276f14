-- ===== src/Queue/Contract.antt =====
-- What `bounded_blocking_queue` promises to its threads, in every order of their steps.
use cmake_sample.Common.{
  ℕ, ◌≤◌, ◌≡◌, refl, sym, ◌∙◌, true, false, Option, List, [], ◌++◌, length, arith, append-nil,
  append_assoc,
}
use cmake_sample.Queue.{Thread, pushing, popping, fault, refuse, is_empty}
use cmake_sample.Queue.System.{System, Run, start, later, At}
use cmake_sample.Queue.Mutex.{holds, Inv}
use cmake_sample.Queue.Safety.{initial, reach-Inv, Run-Inv, Step-effect}

module _ {ℓ} {A : Type ℓ} where
  -- The items that were there and those put in are those taken out and those there now, in this
  -- order; the capacity stays; and once closed, nothing is put in, and it stays closed.
  abbrev pub IsFifo : System A → List A → List A → System A → Type ℓ
  IsFifo s ins outs t =
      (s.shared.items ++ ins ≡ outs ++ t.shared.items)
      × (t.shared.capacity ≡ s.shared.capacity)
      × (s.shared.closed ≡ true → (ins ≡ []) × (t.shared.closed ≡ true))

  pub IsFifo-refl : (s : System A) → IsFifo s [] [] s
  IsFifo-refl s = (append-nil s.shared.items, refl, λ e. (refl, e))

  pub IsFifo-trans :
      (s m t : System A) (ins outs i o : List A)
      → IsFifo s ins outs m
      → IsFifo m i o t
      → IsFifo s (ins ++ i) (outs ++ o) t
  IsFifo-trans s m t ins outs i o (order, same, shut) (order', same', shut') = (
    cc (
      append_assoc s.shared.items ins i,
      append_assoc outs m.shared.items i,
      append_assoc outs o t.shared.items,
    ),
    same' ∙ same,
    λ h.
        let (none_in, and_on) = shut h in
        let (none_now, still) = shut' and_on in (rw (none_in, none_now), still),
  )

  pub Run-IsFifo :
      {s t : System A} {ins outs : List A} → Inv s → Run s ins outs t → IsFifo s ins outs t
  Run-IsFifo {s} inv start = IsFifo-refl s
  Run-IsFifo {s} {t} inv (later {ins} {outs} {i} {o} {t = m} r st e f) =
      let both : IsFifo s (ins ++ i) (outs ++ o) t =
        IsFifo-trans s m t ins outs i o (Run-IsFifo inv r) (Step-effect (Run-Inv inv r) st) in
      rw (e, f) both

  -- First in, first out: the items that were ever put into a new queue are, in this order, the items
  -- that were taken out and the items that are still in it. None is lost, doubled or moved.
  pub fifo :
      (capacity n : ℕ) {s : System A} {ins outs : List A}
      → Run (initial capacity n) ins outs s
      → ins ≡ outs ++ s.shared.items
  unfolding initial
  fifo capacity n r = (Run-IsFifo (reach-Inv capacity n start) r).0

  -- In every state that threads can reach on a new queue, it holds at most as many items as its
  -- capacity.
  pub within_capacity :
      (capacity n : ℕ) {s : System A} {ins outs : List A}
      → Run (initial capacity n) ins outs s
      → length s.shared.items ≤ capacity
  unfolding initial
  within_capacity capacity n r =
      omega (arith, (reach-Inv capacity n r).bounded, (Run-IsFifo (reach-Inv capacity n start) r).1)

  -- In no state that threads can reach on a new queue are two of them between lock and unlock.
  pub mutual_exclusion :
      (capacity n : ℕ) {s : System A} {ins outs : List A}
      → Run (initial capacity n) ins outs s
      → (i j : ℕ) (p q : Thread A) → At s i p
      → At s j q
      → holds p ≡ true
      → holds q ≡ true
      → i ≡ j
  mutual_exclusion capacity n r i j p q here there in_p in_q =
      let mine = (reach-Inv capacity n r).guarded i p here in_p in
      let yours = (reach-Inv capacity n r).guarded j q there in_q in cc

  -- In no state that threads can reach on a new queue has one read the front of an empty deque.
  pub no_fault :
      (capacity n : ℕ) {s : System A} {ins outs : List A}
      → Run (initial capacity n) ins outs s
      → (i : ℕ) → ¬ At s i fault
  no_fault capacity n r i here = (reach-Inv capacity n r).fresh i fault here

  -- Once the queue is closed it stays closed, no later step puts an item in, and what is taken out
  -- is the front part of the items that were left: the rest is still there, in order.
  pub closed_drains :
      (capacity n : ℕ) {s t : System A} {ins outs ins' outs' : List A}
      → Run (initial capacity n) ins outs s
      → s.shared.closed ≡ true
      → Run s ins' outs' t
      → (t.shared.closed ≡ true) × (ins' ≡ []) × (s.shared.items ≡ outs' ++ t.shared.items)
  closed_drains capacity n {s} {t} {outs'} r shut r' =
      let (order, _, quiet) = Run-IsFifo (reach-Inv capacity n r) r' in
      let (none_in, still) = quiet shut in
      (still, none_in, sym (append-nil s.shared.items) ∙ rw none_in at order)

  -- In every state that threads can reach on a new queue, a `push` or `pop` without a time limit
  -- that is about to return false does so for one reason: the queue is closed, and for `pop` empty
  -- too.
  pub gives_up_only_when_closed :
      (capacity n : ℕ) {s : System A} {ins outs : List A}
      → Run (initial capacity n) ins outs s
      → (i : ℕ)
      → ((x : A) → At s i (pushing false x refuse) → s.shared.closed ≡ true)
        × ((out : Option A)
            → At s i (popping false out refuse)
            → (s.shared.closed ≡ true) × (is_empty s.shared.items ≡ true))
  gives_up_only_when_closed capacity n r i = (
    λ x here. (reach-Inv capacity n r).fresh i _ here,
    λ out here. (reach-Inv capacity n r).fresh i _ here,
  )
