-- ===== src/Queue/Alone.antt =====
-- Each operation on a free mutex, without another thread between its statements.
use cmake_sample.Common.{
  ℕ, zero, suc, ◌≤◌, ◌<◌, ◌≡◌, ◌⊎◌, inl, inr, refl, Bool, true, false, none, some, List, [], ◌∷◌,
  ◌++◌, length, leb, arith, if◌then◌else◌, Bool-cases,
}
use cmake_sample.Queue.{
  Shared, Thread, push, push_for, pop, pop_for, pushing, popping, finished, wait, notify, pushed,
  popped, begin, next,
}

module _ {ℓ} {A : Type ℓ} where
  -- At most `n` statements of thread `i`.
  pub alone : ℕ → ℕ → Shared A → Thread A → Shared A × Thread A
  alone zero i m p = (m, p)
  alone (suc n) i m p = elim (next i m p) [ none ↦ (m, p) | some r ↦ alone n i r.0 r.1 ]

  abbrev pub free_queue : ℕ → List A → Bool → Shared A
  free_queue capacity items closed = record {
    capacity = capacity;
    items = items;
    closed = closed;
    owner = none;
  }

  -- On a free mutex `push` and `push_for` do one of three things: on a closed queue they return
  -- false, on a full one they wait, and else they put the item at the end and go on to notify. The
  -- mutex is free again.
  pub push_alone :
      (timed : Bool) (i capacity : ℕ) (items : List A) (closed : Bool) (x : A)
      → let after =
          alone 5 i
            (free_queue capacity items closed)
            (begin (if timed then push_for x else push x)) in
        ((closed ≡ true) × (after ≡ (free_queue capacity items closed, finished (pushed false))))
        ⊎ ((closed ≡ false)
            × (capacity ≤ length items)
            × (after ≡ (free_queue capacity items closed, pushing timed x wait)))
        ⊎ ((closed ≡ false)
            × (length items < capacity)
            × (after ≡ (free_queue capacity (items ++ (x ∷ [])) closed, pushing timed x notify)))
  unfolding alone next
  push_alone true i capacity items true x = inl (refl, refl)
  push_alone false i capacity items true x = inl (refl, refl)
  push_alone true i capacity items false x = elim (Bool-cases (leb capacity (length items))) [
    | inl e ↦ inr (inl (refl, ground arith, rw (e, alone)))
    | inr e ↦ inr (inr (refl, ground arith, rw (e, alone)))
  ]
  push_alone false i capacity items false x = elim (Bool-cases (leb capacity (length items))) [
    | inl e ↦ inr (inl (refl, ground arith, rw (e, alone)))
    | inr e ↦ inr (inr (refl, ground arith, rw (e, alone)))
  ]

  -- On a free mutex `pop` and `pop_for` do one of three things: where there is an item they take the
  -- first one, closed or not, and go on to notify; on an empty closed queue they return false; on an
  -- empty open one they wait. The mutex is free again.
  pub pop_alone :
      (timed : Bool) (i capacity : ℕ) (items : List A) (closed : Bool)
      → let after =
          alone 5 i (free_queue capacity items closed) (begin (if timed then pop_for else pop)) in
        ((x : A) × (rest : List A) × (items ≡ x ∷ rest)
          × (after ≡ (free_queue capacity rest closed, popping timed (some x) notify)))
        ⊎ ((items ≡ [])
            × (closed ≡ true)
            × (after ≡ (free_queue capacity items closed, finished (popped none))))
        ⊎ ((items ≡ [])
            × (closed ≡ false)
            × (after ≡ (free_queue capacity items closed, popping timed none wait)))
  unfolding alone next
  pop_alone true i capacity [] true = inr (inl (refl, refl, refl))
  pop_alone false i capacity [] true = inr (inl (refl, refl, refl))
  pop_alone true i capacity [] false = inr (inr (refl, refl, refl))
  pop_alone false i capacity [] false = inr (inr (refl, refl, refl))
  pop_alone true i capacity (x ∷ rest) true = inl (x, rest, refl, refl)
  pop_alone false i capacity (x ∷ rest) true = inl (x, rest, refl, refl)
  pop_alone true i capacity (x ∷ rest) false = inl (x, rest, refl, refl)
  pop_alone false i capacity (x ∷ rest) false = inl (x, rest, refl, refl)
