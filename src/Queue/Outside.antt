-- ===== src/Queue/Outside.antt =====
-- What the steps that leave the shared fields alone do with a thread, and `notify_all` with all of
-- them.
use cmake_sample.Common.{
  ◌≡◌, refl, sym, ◌∙◌, true, false, some, map, arith, get_elem?-map, map-get_elem?,
}
use cmake_sample.Queue.{Shared, Thread, Operation, pushing, popping, wait, begin}
use cmake_sample.Queue.System.{
  System, Condition, not_full, not_empty, woken, waiting, expired, notifies, broadcasts, is_free,
}
use cmake_sample.Queue.Mutex.{holds, IsFresh, Inv}

module _ {ℓ} {A : Type ℓ} where
  pub woken-holds : (c : Condition) (p : Thread A) → holds (woken c p) ≡ holds p
  unfolding woken
  woken-holds not_full (pushing d x wait) = refl
  woken-holds not_empty (popping d out wait) = refl
  woken-holds not_full p = refl
  woken-holds not_empty p = refl

  pub woken-IsFresh :
      (c : Condition) (m : Shared A) (p : Thread A) → IsFresh m p → IsFresh m (woken c p)
  unfolding woken
  woken-IsFresh not_full m (pushing d x wait) f = tt
  woken-IsFresh not_empty m (popping d out wait) f = tt
  woken-IsFresh not_full m p f = f
  woken-IsFresh not_empty m p f = f

  pub woken_all-Inv :
      (c : Condition) (s : System A) → Inv s → Inv (record s { threads = map (woken c) s.threads })
  woken_all-Inv c s inv = record {
    guarded = λ k q e held.
        let (p, old, eq) = get_elem?-map (woken c) s.threads k q e in
        let held' : holds (woken c p) ≡ true = rw eq at held in
        inv.guarded k p old (sym (woken-holds c p) ∙ held');
    backed = λ k e.
        let (p, old, held) = inv.backed k e in
        (woken c p, map-get_elem? (woken c) s.threads k p old, woken-holds c p ∙ held);
    fresh = λ k q e.
        let (p, old, eq) = get_elem?-map (woken c) s.threads k q e in
        rw eq (woken-IsFresh c s.shared p (inv.fresh k p old));
    bounded = inv.bounded;
  }

  pub free_outside : (p : Thread A) → is_free p ≡ true → holds p ≡ false
  unfolding is_free
  free_outside p h = ground arith

  pub begin_outside :
      (m : Shared A) (o : Operation A) → (holds (begin o) ≡ false) × IsFresh m (begin o)
  begin_outside m o = ground arith

  pub expired_outside :
      (m : Shared A) (p p' : Thread A)
      → expired p ≡ some p'
      → (holds p ≡ false) × (holds p' ≡ false) × IsFresh m p'
  unfolding expired
  expired_outside m p p' h = ground arith

  pub waiting_outside : (c : Condition) (p : Thread A) → waiting c p ≡ 1 → holds p ≡ false
  unfolding waiting
  waiting_outside c p h = ground arith

  pub notifies_outside :
      (m : Shared A) (c : Condition) (p p' : Thread A)
      → notifies p ≡ some (c, p')
      → (holds p ≡ false) × (holds p' ≡ false) × IsFresh m p'
  unfolding notifies
  notifies_outside m c p p' h = ground arith

  pub broadcasts_outside :
      (m : Shared A) (c : Condition) (p p' : Thread A)
      → broadcasts p ≡ some (c, p')
      → (holds p ≡ false) × (holds p' ≡ false) × IsFresh m p'
  unfolding broadcasts
  broadcasts_outside m c p p' h = ground arith
