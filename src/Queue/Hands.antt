-- ===== src/Queue/Hands.antt =====
-- The items that threads have in hand, and what one statement does to them.
use cmake_sample.Common.{
  get_elem?, map, map-get_elem?, map-get_elem?-none, append-nil, inl, inr, Option-cases, ℕ, ◌≡◌,
  refl, sym, ap, ◌∙◌, Bool, true, false, Option, none, some, List, [], ◌∷◌, ◌++◌, arith,
  append_assoc,
}
use cmake_sample.Queue.{
  Shared, Thread, Operation, Outcome, idle, pushing, popping, unlock, notify, pushed, popped, next,
  begin, push, push_for, pop, pop_for,
}
use cmake_sample.Queue.System.{
  System, Condition, Step, runs, calls, times_out, wakes, notifies_one, notifies_nobody,
  notifies_all, Run, start, later, notifies, broadcasts, expired, woken, put, taken, is_free,
}
use cmake_sample.Queue.Returns.{Return, Side, putting, taking, moved, returned}

module _ {ℓ} {A : Type ℓ} where
  -- The item of a `push` that returned true, and the one that a `pop` gave.
  unfoldable pub item_by : Side → Thread A → Outcome A → List A
  item_by putting (pushing d x at) (pushed true) = x ∷ []
  item_by taking p (popped (some x)) = x ∷ []
  item_by side p o = []

  -- These items of all returns, in their order.
  unfoldable pub items_of : Side → List (Return A) → List A
  items_of side [] = []
  items_of side (r ∷ rest) = item_by side r.from r.outcome ++ items_of side rest

  -- The item that a thread has put or taken, but not yet returned for.
  unfoldable pub in_hand : Side → Thread A → List A
  in_hand putting (pushing d x unlock) = x ∷ []
  in_hand putting (pushing d x notify) = x ∷ []
  in_hand taking (popping d (some x) unlock) = x ∷ []
  in_hand taking (popping d (some x) notify) = x ∷ []
  in_hand side p = []

  abbrev pub in_hand_at : Side → Option (Thread A) → List A
  in_hand_at side none = []
  in_hand_at side (some p) = in_hand side p

  -- A thread in an operation of this side.
  pub works : Side → Thread A → Bool
  works putting (pushing d x at) = true
  works taking (popping d out at) = true
  works side p = false

  unfoldable pub asks : Side → Operation A → Bool
  asks putting (push x) = true
  asks putting (push_for x) = true
  asks taking pop = true
  asks taking pop_for = true
  asks side o = false

  unfoldable pub StepBy :
      Side → ℕ → {s t : System A} {ins outs : List A} → Step s ins outs t → Type 0
  StepBy side c (calls i p o here free) = asks side o ≡ true → i ≡ c
  StepBy side c (runs i p p' m here moved) = Unit
  StepBy side c (times_out i p p' here e) = Unit
  StepBy side c (wakes d i p here w) = Unit
  StepBy side c (notifies_one d i j p p' q here e there w) = Unit
  StepBy side c (notifies_nobody d i p p' here e none_waits) = Unit
  StepBy side c (notifies_all d i p p' here e) = Unit

  -- Only this thread calls the operations of this side.
  unfoldable pub OnlyBy :
      Side → ℕ → {s t : System A} {ins outs : List A} → Run s ins outs t → Type 0
  OnlyBy side c start = Unit
  OnlyBy side c (later r st e f) = OnlyBy side c r × StepBy side c st

  -- What a thread had in hand and what it moves is what it returns for and what it has in hand
  -- then; and outside of this side it stays so.
  abbrev pub IsEven : Side → Thread A → Thread A → List A → List A → Type ℓ
  IsEven side p q m k =
      (in_hand side p ++ m ≡ k ++ in_hand side q)
      × (works side p ≡ false → (m ≡ []) × (k ≡ []) × (works side q ≡ false))

  abbrev pub paid_for : Side → Thread A → Thread A → List A
  paid_for side p q = items_of side (returned p q)

  pub next-IsEven :
      (side : Side) (i : ℕ) (m m' : Shared A) (p q : Thread A)
      → next i m p ≡ some (m', q)
      → IsEven side p q (moved side (put p) (taken m p)) (paid_for side p q)
  unfolding next put taken returned items_of item_by in_hand works
  next-IsEven putting i m m' p q e = ground arith
  next-IsEven taking i m m' p q e = ground arith

  pub notifies-IsEven :
      (side : Side) (d : Condition) (p q : Thread A)
      → notifies p ≡ some (d, q)
      → IsEven side p q [] (paid_for side p q)
  unfolding notifies returned items_of item_by in_hand works
  notifies-IsEven putting d p q e = ground arith
  notifies-IsEven taking d p q e = ground arith

  pub broadcasts-IsEven :
      (side : Side) (d : Condition) (p q : Thread A)
      → broadcasts p ≡ some (d, q)
      → IsEven side p q [] (paid_for side p q)
  unfolding broadcasts returned items_of item_by in_hand works
  broadcasts-IsEven putting d p q e = ground arith
  broadcasts-IsEven taking d p q e = ground arith

  pub expired-IsEven : (side : Side) (p q : Thread A) → expired p ≡ some q → IsEven side p q [] []
  unfolding expired in_hand works
  expired-IsEven putting p q e = ground arith
  expired-IsEven taking p q e = ground arith

  pub woken-IsEven : (side : Side) (d : Condition) (p : Thread A) → IsEven side p (woken d p) [] []
  unfolding woken in_hand works
  woken-IsEven putting d p = ground arith
  woken-IsEven taking d p = ground arith

  pub free-in_hand : (side : Side) (p : Thread A) → is_free p ≡ true → in_hand side p ≡ []
  unfolding is_free in_hand
  free-in_hand putting p free = ground arith
  free-in_hand taking p free = ground arith

  pub begin-in_hand : (side : Side) (o : Operation A) → in_hand side (begin o) ≡ []
  unfolding in_hand
  begin-in_hand putting o = ground arith
  begin-in_hand taking o = ground arith

  pub begin-works : (side : Side) (o : Operation A) → works side (begin o) ≡ asks side o
  unfolding works asks
  begin-works putting o = ground arith
  begin-works taking o = ground arith

  pub idle_lem : (side : Side) → (works side idle ≡ false) × (in_hand side idle ≡ [])
  unfolding works in_hand
  idle_lem putting = (refl, refl)
  idle_lem taking = (refl, refl)

  pub nothing_moved : (side : Side) → moved {A = A} side [] [] ≡ []
  nothing_moved putting = refl
  nothing_moved taking = refl

  pub moved-append :
      (side : Side) (ins outs i o : List A)
      → moved side (ins ++ i) (outs ++ o) ≡ moved side ins outs ++ moved side i o
  moved-append putting ins outs i o = refl
  moved-append taking ins outs i o = refl

  pub items_of-append :
      (side : Side) (xs ys : List (Return A))
      → items_of side (xs ++ ys) ≡ items_of side xs ++ items_of side ys
  unfolding items_of
  items_of-append side [] ys = refl
  items_of-append side (r ∷ xs) ys =
      ap (◌++◌ (item_by side r.from r.outcome)) (items_of-append side xs ys)
      ∙ sym (append_assoc (item_by side r.from r.outcome) (items_of side xs) (items_of side ys))

  module _ (side : Side) (c : ℕ) where
    -- What this thread has in hand.
    abbrev pub hand : System A → List A
    hand s = in_hand_at side (get_elem? s.threads c)

    pub woken_all-hand :
        (d : Condition) (s : System A)
        → hand (record s { threads = map (woken d) s.threads }) ≡ hand s
    woken_all-hand d s = elim (Option-cases (get_elem? s.threads c)) [
      | inl nobody ↦ rw (nobody, map-get_elem?-none (woken d) s.threads c nobody) refl
      | inr (p, here) ↦
          let woke = map-get_elem? (woken d) s.threads c p here in
          let (even, _) = woken-IsEven side d p in
          rw (here, woke) (sym even ∙ append-nil (in_hand side p))
    ]
