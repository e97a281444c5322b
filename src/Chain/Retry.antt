-- ===== src/Chain/Retry.antt =====
-- Retries and failover.
use mathlib.Core.List.{Perm, perm_middle, append-nil}
use mathlib.Core.List.Perm
use akave_crosschain_archive.Base.{
  ℕ, zero, suc, ◌+◌, ◌<◌, ◌≡◌, refl, inl, inr, Bool, true, false, List, [], ◌∷◌, arith, Result, ok,
  err, Error, canceled, ◌∙◌, get_elem?, get_elem?-append_left, length, length-append, some_inj,
  some, Result-cases, if◌then◌else◌, ltb, failure,
}
use akave_crosschain_archive.Chain.{
  Client, Cancellation, never, failover, call_primary, retry_loop, with_retry,
}

module _ {ℓ} {E : Type ℓ} where
  failover-perm : (es : List E) → Perm (failover es) es
  unfolding failover
  failover-perm [] = Perm.refl []
  failover-perm (x ∷ []) = Perm.refl (x ∷ [])
  failover-perm (x ∷ y ∷ rest) = rw append-nil at (perm_middle {a = x} (y ∷ rest) [])

-- The three ways on from a failed attempt.
stop_or_next {ℓ κ μ} :
    {E : Type ℓ} {A : Type κ} (P : List E → Type μ) (over more stopped : Bool) (es next_es : List E)
    (next : List E × Result A)
    → P es
    → P next_es
    → P next.0
    → P
        (if over
          then (es, err canceled)
          else if more
          then (if stopped then (next_es, err canceled) else next)
          else next).0
stop_or_next P true more stopped es next_es next h k l = h
stop_or_next P false true true es next_es next h k l = k
stop_or_next P false true false es next_es next h k l = l
stop_or_next P false false stopped es next_es next h k l = l

module _ {ℓ κ μ} {E : Type ℓ} {A : Type κ} (ctx : Cancellation) (call : E → ℕ → Result A)
    (P : List E → Type μ) (switched : (es : List E) → P es → P (failover es)) where
  -- What a failover keeps of the endpoints, the retries keep.
  retry_loop_rule :
      (rounds attempt : ℕ) (last : Error) (es : List E)
      → P es
      → P (retry_loop ctx call rounds attempt last es).0
  unfolding retry_loop
  retry_loop_rule zero attempt last es h = h
  retry_loop_rule (suc rounds) attempt last es h =
      elim (Result-cases (call_primary call attempt es)) [
        | inl (a, answered) ↦ rw (answered, retry_loop) h
        | inr (e, refused) ↦
            let next = retry_loop_rule rounds (attempt + 1) e (failover es) (switched es h) in
            rw (refused, retry_loop)
              (stop_or_next P (ctx.after_attempt attempt) (ltb attempt 2) (ctx.in_backoff attempt)
                es (failover es) _ h (switched es h) next)
      ]

  with_retry_rule : (c : Client E) → P c.endpoints → P (with_retry ctx call c).0.endpoints
  unfolding with_retry
  with_retry_rule c h = retry_loop_rule 3 0 (failure "") c.endpoints h

failover-length {ℓ} : {E : Type ℓ} (es : List E) → length (failover es) ≡ length es
unfolding failover
failover-length [] = refl
failover-length (x ∷ []) = refl
failover-length (x ∷ y ∷ rest) = length-append (y ∷ rest) (x ∷ []) ∙ omega arith

module _ {ℓ κ} {E : Type ℓ} {A : Type κ} (ctx : Cancellation) (call : E → ℕ → Result A) where
  -- Retries never lose an endpoint: the list behind a call is a rearrangement of the one before it.
  pub with_retry-perm : (c : Client E) → Perm (with_retry ctx call c).0.endpoints c.endpoints
  with_retry-perm c =
      with_retry_rule ctx call (λ es. Perm es c.endpoints) (λ es h. Perm.trans (failover-perm es) h)
        c (Perm.refl c.endpoints)

  pub with_retry-length :
      (c : Client E) → length (with_retry ctx call c).0.endpoints ≡ length c.endpoints
  with_retry-length c =
      with_retry_rule ctx call (λ es. length es ≡ length c.endpoints)
        (λ es h. failover-length es ∙ h) c refl

module _ {ℓ κ} {E : Type ℓ} {A : Type κ} (call : E → ℕ → Result A) where
  failover_steps :
      (es : List E) (i : ℕ) (g : E)
      → get_elem? es (suc i) ≡ some g
      → get_elem? (failover es) i ≡ some g
  unfolding failover
  failover_steps [] i g h = absurd (ground arith)
  failover_steps (x ∷ []) i g h = absurd (ground arith)
  failover_steps (x ∷ y ∷ rest) i g h = get_elem?-append_left (y ∷ rest) (x ∷ []) i g h

  retry_loop_reaches :
      (rounds attempt i : ℕ) (last : Error) (es : List E) (g : E)
      → ((k : ℕ) → (a : A) × (call g k ≡ ok a))
      → i < rounds
      → get_elem? es i ≡ some g
      → (a : A) × ((retry_loop never call rounds attempt last es).1 ≡ ok a)
  unfolding retry_loop
  retry_loop_reaches zero attempt i last es g up h at = absurd (omega arith)
  retry_loop_reaches (suc rounds) attempt zero last [] g up h at = absurd (ground arith)
  retry_loop_reaches (suc rounds) attempt zero last (x ∷ es) g up h at =
      let (a, e) = up attempt in
      let same : x ≡ g = some_inj at in (a, rw same (rw (e, retry_loop) refl))
  retry_loop_reaches (suc rounds) attempt (suc i) last es g up h at =
      elim (Result-cases (call_primary call attempt es)) [
        | inl (a, answered) ↦ (a, rw (answered, retry_loop) refl)
        | inr (e, refused) ↦
            let (a, later) =
              retry_loop_reaches rounds (attempt + 1) i e (failover es) g up (omega arith)
                (failover_steps es i g at) in
            (a, rw (refused, retry_loop) (ground (arith, later)))
      ]

  -- If one of the first three endpoints answers every attempt, the call succeeds, whatever the
  -- others do, unless the context is done.
  pub failover_reaches :
      (c : Client E) (i : ℕ) (g : E)
      → ((k : ℕ) → (a : A) × (call g k ≡ ok a))
      → i < 3
      → get_elem? c.endpoints i ≡ some g
      → (a : A) × ((with_retry never call c).1 ≡ ok a)
  unfolding with_retry
  failover_reaches c i g up h at = retry_loop_reaches 3 0 i (failure "") c.endpoints g up h at

module _ {ℓ κ μ} {E : Type ℓ} {A : Type κ} (ctx : Cancellation) (call : E → ℕ → Result A)
    (P : A → Type μ) (answers : (e : E) (k : ℕ) (a : A) → call e k ≡ ok a → P a) where
  stop_or_next_sound :
      (over more stopped : Bool) (es next_es : List E) (next : List E × Result A) (a : A)
      → (next.1 ≡ ok a → P a)
      → (if over
          then (es, err canceled)
          else if more
          then (if stopped then (next_es, err canceled) else next)
          else next).1
        ≡ ok a
      → P a
  stop_or_next_sound true more stopped es next_es next a h k = absurd (ground arith)
  stop_or_next_sound false true true es next_es next a h k = absurd (ground arith)
  stop_or_next_sound false true false es next_es next a h k = h k
  stop_or_next_sound false false stopped es next_es next a h k = h k

  primary_sound : (attempt : ℕ) (es : List E) (a : A) → call_primary call attempt es ≡ ok a → P a
  primary_sound attempt [] a h = absurd (ground arith)
  primary_sound attempt (x ∷ es) a h = answers x attempt a h

  retry_loop_sound :
      (rounds attempt : ℕ) (last : Error) (es : List E) (a : A)
      → (retry_loop ctx call rounds attempt last es).1 ≡ ok a
      → P a
  unfolding retry_loop
  retry_loop_sound zero attempt last es a h = absurd (ground arith)
  retry_loop_sound (suc rounds) attempt last es a h =
      elim (Result-cases (call_primary call attempt es)) [
        | inl (b, answered) ↦
            primary_sound attempt es a (answered ∙ (rw (answered, retry_loop) at h))
        | inr (e, refused) ↦
            stop_or_next_sound (ctx.after_attempt attempt) (ltb attempt 2) (ctx.in_backoff attempt)
              es (failover es) _ a (retry_loop_sound rounds (attempt + 1) e (failover es) a)
              (rw (refused, retry_loop) at h)
      ]

  -- What an answer of the retries satisfies is what an answer of an endpoint satisfies.
  pub with_retry_sound : (c : Client E) (a : A) → (with_retry ctx call c).1 ≡ ok a → P a
  unfolding with_retry
  with_retry_sound c a h = retry_loop_sound 3 0 (failure "") c.endpoints a h
