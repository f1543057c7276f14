-- ===== src/Queue/Mutex.antt =====
-- What the mutex gives: one thread at a time between lock and unlock, so what a thread has tested
-- still holds when it acts.
use cmake_sample.Common.{
  ℕ, ◌≤◌, ◌<◌, ◌≡◌, ◌≢◌, ◌⊎◌, inl, inr, sym, ◌∙◌, ap, Bool, true, false, Option, none, some, List,
  [], ◌∷◌, set, get_elem?, length, arith, length-append, Bool-cases, get_elem?-set_self,
  get_elem?-set_ne,
}
use native.Mathlib.Decide.{ℕ_discrete}
use cmake_sample.Queue.{
  Shared, Thread, Phase, pushing, popping, closing, asking, reading, fault, test, expire, act,
  unlock, refuse, notify, close_set, close_unlock, next, is_empty,
}
use cmake_sample.Queue.System.{System, At, place}

-- The statements between lock and unlock.
abbrev pub inside : Phase → Bool
inside test = true
inside act = true
inside unlock = true
inside refuse = true
inside _ = false

module _ {ℓ} {A : Type ℓ} where
  abbrev pub holds : Thread A → Bool
  holds (pushing d x ph) = inside ph
  holds (popping d out ph) = inside ph
  holds (closing close_set) = true
  holds (closing close_unlock) = true
  holds (reading q) = true
  holds _ = false

  abbrev pub is_some : Option A → Bool
  is_some none = false
  is_some (some x) = true

  -- What a thread relies on at its next statement.
  abbrev pub IsFresh : Shared A → Thread A → Type 0
  IsFresh m (pushing d x act) = (length m.items < m.capacity) × (m.closed ≡ false)
  IsFresh m (pushing false x expire) = ⊥
  IsFresh m (pushing false x refuse) = m.closed ≡ true
  IsFresh m (popping d out act) = is_empty m.items ≡ false
  IsFresh m (popping false out expire) = ⊥
  IsFresh m (popping false out refuse) = (m.closed ≡ true) × (is_empty m.items ≡ true)
  IsFresh m (popping d out unlock) = is_some out ≡ true
  IsFresh m (popping d out notify) = is_some out ≡ true
  IsFresh m fault = ⊥
  IsFresh m _ = Unit

  -- A thread that does not hold the mutex can only take it.
  next-lock :
      (i : ℕ) (m m' : Shared A) (p p' : Thread A)
      → next i m p ≡ some (m', p')
      → holds p ≡ false
      → IsFresh m p
      → (m.owner ≡ none) × (m' ≡ record m { owner = some i }) × (holds p' ≡ true) × (IsFresh m' p')
  unfolding next
  next-lock i m m' (pushing true x expire) p' e h f = ground arith
  next-lock i m m' (popping true out expire) p' e h f = ground arith
  next-lock i m m' (asking q) p' e h f = ground arith
  next-lock i m m' p p' e h f = ground arith

  pub next-held :
      (i : ℕ) (m m' : Shared A) (p p' : Thread A)
      → next i m p ≡ some (m', p')
      → holds p ≡ true
      → IsFresh m p
      → length m.items ≤ m.capacity
      → (((m'.owner ≡ m.owner) × (holds p' ≡ true)) ⊎ ((m'.owner ≡ none) × (holds p' ≡ false)))
        × IsFresh m' p'
        × (length m'.items ≤ m'.capacity)
        × (m'.capacity ≡ m.capacity)
  unfolding next
  next-held i m m' (pushing false x test) p' e h f b = ground arith
  next-held i m m' (pushing false x refuse) p' e h f b = ground arith
  next-held i m m' (pushing d x act) p' e h f b = ground (arith, length-append m.items (x ∷ []))
  next-held i m m' (popping d out act) p' e h f b = ground arith
  next-held i m m' p p' e h f b = ground arith

  pub record Inv (s : System A) : Type ℓ where
    -- A thread between lock and unlock is the owner, and the owner is such a thread.
    pub guarded : (i : ℕ) (p : Thread A) → At s i p → holds p ≡ true → s.shared.owner ≡ some i
    pub backed : (i : ℕ) → s.shared.owner ≡ some i → (p : Thread A) × (At s i p) × (holds p ≡ true)
    pub fresh : (i : ℕ) (p : Thread A) → At s i p → IsFresh s.shared p
    pub bounded : length s.shared.items ≤ s.shared.capacity

  -- Reading a list of threads after one entry was replaced.
  pub place_cases :
      (ts : List (Thread A)) (i k : ℕ) (p p' q : Thread A)
      → get_elem? ts i ≡ some p
      → get_elem? (set ts i p') k ≡ some q
      → ((i ≡ k) × (q ≡ p')) ⊎ ((i ≢ k) × (get_elem? ts k ≡ some q))
  place_cases ts i k p p' q h e = elim (ℕ_discrete i k) [
    | yes same ↦ inl (same, cc (get_elem?-set_self ts i p' p h))
    | no other ↦ inr (other, sym (get_elem?-set_ne ts i k p' other) ∙ e)
  ]

  -- Only what holds the mutex relies on the shared fields.
  pub IsFresh_outside :
      (m m' : Shared A) (p : Thread A) → holds p ≡ false → IsFresh m p → IsFresh m' p
  IsFresh_outside m m' (pushing d x act) h f = cc
  IsFresh_outside m m' (pushing false x refuse) h f = cc
  IsFresh_outside m m' (popping d out act) h f = cc
  IsFresh_outside m m' (popping false out refuse) h f = cc
  IsFresh_outside m m' p h f = f

  module _ (s : System A) (inv : Inv s) (i : ℕ) (p : Thread A) (here : At s i p) where
    -- A thread that stays outside the lock changes nothing of it.
    pub place-Inv :
        (p' : Thread A)
        → holds p ≡ false
        → holds p' ≡ false
        → IsFresh s.shared p'
        → Inv (place s i p')
    place-Inv p' out out' f = record {
      guarded = λ k q e held. elim (place_cases s.threads i k p p' q here e) [
        | inl (same, eq) ↦ let held' : holds p' ≡ true = rw eq at held in cc
        | inr (_, old) ↦ inv.guarded k q old held
      ];
      backed = λ k e. elim (ℕ_discrete i k) [
        | yes same ↦
            let (q, old, held) = inv.backed k e in
            let eq : q ≡ p = cc in let held' : holds p ≡ true = rw eq at held in cc
        | no other ↦
            let (q, old, held) = inv.backed k e in
            (q, get_elem?-set_ne s.threads i k p' other ∙ old, held)
      ];
      fresh = λ k q e. elim (place_cases s.threads i k p p' q here e) [
        | inl (same, eq) ↦ rw eq f
        | inr (_, old) ↦ inv.fresh k q old
      ];
      bounded = inv.bounded;
    }

    module _ (m : Shared A) (p' : Thread A) (moved : next i s.shared p ≡ some (m, p')) where
      abbrev ran : System A
      ran = record { shared = m; threads = set s.threads i p' }

      -- The thread takes the mutex.
      lock-Inv : holds p ≡ false → Inv ran
      lock-Inv out = record {
        guarded = λ k q e held. elim (place_cases s.threads i k p p' q here e) [
          | inl (same, eq) ↦ rw (owned, same)
          | inr (_, old) ↦ let busy = inv.guarded k q old held in cc free
        ];
        backed = λ k e.
            let same : i ≡ k = cc owned in
            (p', cc (get_elem?-set_self s.threads i p' p here), facts.2);
        fresh = λ k q e. elim (place_cases s.threads i k p p' q here e) [
          | inl (same, eq) ↦ rw eq facts.3
          | inr (_, old) ↦ elim (Bool-cases (holds q)) [
            | inl held ↦ let busy = inv.guarded k q old held in cc free
            | inr idle_there ↦ IsFresh_outside s.shared m q idle_there (inv.fresh k q old)
          ]
        ];
        bounded = rw facts.1 inv.bounded;
      }
        where
          facts :
              (s.shared.owner ≡ none)
              × (m ≡ record (s.shared) { owner = some i })
              × (holds p' ≡ true)
              × (IsFresh m p')
          facts = next-lock i s.shared m p p' moved out (inv.fresh i p here)

          free : s.shared.owner ≡ none
          free = facts.0

          owned : m.owner ≡ some i
          owned = ap (λ (r : Shared A). r.owner) facts.1

      -- The owner runs on, or gives the mutex back.
      held-Inv : holds p ≡ true → Inv ran
      held-Inv held = record {
        guarded = λ k q e held_there. elim (place_cases s.threads i k p p' q here e) [
          | inl (same, eq) ↦ elim facts.0 [
            | inl (kept, _) ↦ kept ∙ owned ∙ ap some same
            | inr (_, left) ↦ let on : holds p' ≡ true = rw eq at held_there in cc
          ]
          | inr (ne, old) ↦ absurd (ne (others k q old held_there))
        ];
        backed = λ k e. elim facts.0 [
          | inl (kept, on) ↦
              let same : i ≡ k = cc owned in (p', cc (get_elem?-set_self s.threads i p' p here), on)
          | inr (left, _) ↦ cc
        ];
        fresh = λ k q e. elim (place_cases s.threads i k p p' q here e) [
          | inl (same, eq) ↦ rw eq facts.1
          | inr (ne, old) ↦ elim (Bool-cases (holds q)) [
            | inl held_there ↦ absurd (ne (others k q old held_there))
            | inr idle_there ↦ IsFresh_outside s.shared m q idle_there (inv.fresh k q old)
          ]
        ];
        bounded = facts.2;
      }
        where
          owned : s.shared.owner ≡ some i
          owned = inv.guarded i p here held

          others : (k : ℕ) (q : Thread A) → At s k q → holds q ≡ true → i ≡ k
          others k q old held_there = let busy = inv.guarded k q old held_there in cc owned

          facts :
              (((m.owner ≡ s.shared.owner) × (holds p' ≡ true))
                ⊎ ((m.owner ≡ none) × (holds p' ≡ false)))
              × IsFresh m p'
              × (length m.items ≤ m.capacity)
              × (m.capacity ≡ s.shared.capacity)
          facts = next-held i s.shared m p p' moved held (inv.fresh i p here) inv.bounded

      pub runs-Inv : Inv ran
      runs-Inv = elim (Bool-cases (holds p)) [ inl held ↦ held-Inv held | inr out ↦ lock-Inv out ]
