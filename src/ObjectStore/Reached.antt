-- ===== src/ObjectStore/Reached.antt =====
-- Uploads that are tried again.
use akave_crosschain_archive.Base.{
  ℕ, zero, suc, ◌+◌, ◌≤◌, ◌<◌, ◌≡◌, refl, sym, ap, subst, ◌-◌, ◌&&◌, ltb, [], ◌∷◌, length, take,
  drop, ◌∙◌, inl, inr, arith, String, false, some, Option, ◌==◌, Result, ok, err, Error, failure,
  Result-cases, Bool-cases,
}
use akave_crosschain_archive.Base.Bytes.{Bytes}
use akave_crosschain_archive.Chain.{Cancellation}
use akave_crosschain_archive.ObjectStore.{
  Minio, Reader, max_retries, try_again, retried, put_attempt, upload_object,
}

-- The context is never done.
pub record IsOpen (ctx : Cancellation) : Type 0 where
  pub attempts : (attempt : ℕ) → ctx.after_attempt attempt ≡ false
  pub backoffs : (attempt : ℕ) → ctx.in_backoff attempt ≡ false

module _ {S : Type 0} {A : Type 0} (ctx : Cancellation) (call : ℕ → S → S × Result A) where
  try_again-step :
      IsOpen ctx
      → (rounds attempt : ℕ) (last e : Error) (s s' : S) → call attempt s ≡ (s', err e)
      → try_again ctx call (suc rounds) attempt last s
        ≡ try_again ctx call rounds (attempt + 1) e s'
  unfolding try_again
  try_again-step going rounds attempt last e s s' h =
      rw (h, going.attempts attempt, going.backoffs attempt) (ground arith)

  try_again-done :
      (rounds attempt : ℕ) (last : Error) (s s' : S) (a : A)
      → call attempt s ≡ (s', ok a)
      → try_again ctx call (suc rounds) attempt last s ≡ (s', ok a)
  unfolding try_again
  try_again-done rounds attempt last s s' a h = rw h refl

  no_confusion : {a : A} {e : Error} → ok a ≡ err e → ⊥
  no_confusion h = cc

  -- Where the loop ends without an error, a call has worked, in a state that the calls before it keep
  -- to the invariant.
  try_again-ok :
      (Inv : S → Type 0)
      → ((attempt : ℕ) (t : S) → Inv t → Inv (call attempt t).0)
      → (rounds attempt : ℕ) (last : Error) (s s' : S) (a : A) → Inv s
      → try_again ctx call rounds attempt last s ≡ (s', ok a)
      → (j : ℕ) × (t : S) × Inv t × (call j t ≡ (s', ok a))
  unfolding try_again
  try_again-ok Inv keeps zero attempt last s s' a inv h =
      absurd (no_confusion (sym (ap (λ o. o.1) h)))
  try_again-ok Inv keeps (suc rounds) attempt last s s' a inv h =
      let out = call attempt s in
      elim (Result-cases out.1) [
        | inl (b, e) ↦
            let answered : out ≡ (out.0, ok b) = ap (λ r. (out.0, r)) e in
            (attempt, s, inv, answered ∙ (rw answered at h))
        | inr (x, e) ↦
            let refused : out ≡ (out.0, err x) = ap (λ r. (out.0, r)) e in
            let h' = rw refused at h in
            elim (Bool-cases (ctx.after_attempt attempt)) [
              | inl gone ↦ absurd (no_confusion (sym (ap (λ o. o.1) (rw gone at h'))))
              | inr going ↦
                  elim (Bool-cases (ltb attempt (max_retries - 1) && ctx.in_backoff attempt)) [
                    | inl gone ↦
                        absurd (no_confusion (sym (ap (λ o. o.1) (rw (going, gone) at h'))))
                    | inr waits ↦
                        try_again-ok Inv keeps rounds (attempt + 1) x out.0 s' a
                          (keeps attempt s inv) (rw (going, waits) at h')
                  ]
            ]
      ]

  -- A call that works at some attempt that is left is reached, and the loop ends with it or with an
  -- earlier one.
  try_again-reaches :
      (Inv : S → Type 0)
      → ((attempt : ℕ) (t : S) → Inv t → Inv (call attempt t).0)
      → IsOpen ctx
      → (rounds attempt k : ℕ) (last : Error) (s : S) → Inv s
      → attempt ≤ k
      → k < attempt + rounds
      → ((t : S) → Inv t → (a : A) × ((call k t).1 ≡ ok a))
      → (j : ℕ) × (t : S) × (a : A) × (t' : S) × (call j t ≡ (t', ok a))
        × (try_again ctx call rounds attempt last s ≡ (t', ok a))
  try_again-reaches Inv keeps going zero attempt k last s inv low high works = absurd (omega arith)
  try_again-reaches Inv keeps going (suc rounds) attempt k last s inv low high works =
      let out = call attempt s in
      elim (Result-cases out.1) [
        | inl (a, e) ↦
            let answered : out ≡ (out.0, ok a) = ap (λ r. (out.0, r)) e in
            (attempt, s, a, out.0, answered, try_again-done rounds attempt last s out.0 a answered)
        | inr (x, e) ↦ elim (Bool-cases (k == attempt)) [
          | inl here ↦
              let same : k ≡ attempt = ground arith in
              let (a, answer) = works s inv in
              let failed : ok a ≡ err x = sym answer ∙ rw same e in absurd (no_confusion failed)
          | inr later ↦
              let refused : out ≡ (out.0, err x) = ap (λ r. (out.0, r)) e in
              let (j, t, a, t', answer, reached) =
                try_again-reaches Inv keeps going rounds (attempt + 1) k x out.0
                  (keeps attempt s inv) (ground arith) (omega arith) works in
              (
                j,
                t,
                a,
                t',
                answer,
                try_again-step going rounds attempt last x s out.0 refused ∙ reached,
              )
        ]
      ]

-- A tail that is as long as the list is the list.
drop_all : (n : ℕ) (bs : Bytes) → n + length bs ≤ length bs → take (length bs) (drop n bs) ≡ bs
drop_all zero [] h = refl
drop_all zero (b ∷ bs) h = ap (λ t. b ∷ t) (drop_all zero bs (omega arith))
drop_all (suc n) bs h = absurd (omega arith)

module _ {S : Type 0} {Object : Type 0} (minio : Minio S Object)
    (object_at : String → S → Option Bytes) where
  -- A put reads on or rewinds, and a put that works has stored as many bytes as it was told, which it
  -- found behind one another in what the reader reads.
  pub record IsPut : Type 0 where
    pub keeps :
        (attempt : ℕ) (key : String) (reader : Reader) (size : ℕ) (s : S)
        → (minio.put_object attempt key reader size s).1.content ≡ reader.content
    pub stores :
        (attempt : ℕ) (key : String) (reader : Reader) (size : ℕ) (s : S)
        → let out = minio.put_object attempt key reader size s in
          out.2 ≡ ok tt
          → (from : ℕ) × (from + size ≤ length reader.content)
            × (object_at key out.0 ≡ some (take size (drop from reader.content)))

  -- Where a put that works stores the bytes that it was told to, an upload that reports no error has
  -- stored all bytes of its reader, however many attempts it took and however far the attempts that
  -- failed have read.
  pub upload_object-stores :
      (ctx : Cancellation) (key : String) (reader : Reader) (s s' : S) (reader' : Reader)
      → IsPut
      → upload_object minio ctx key reader (length reader.content) s ≡ ((s', reader'), ok tt)
      → object_at key s' ≡ some reader.content
  unfolding upload_object retried
  upload_object-stores ctx key reader s s' reader' put h =
      let bs = reader.content in
      let (j, (t, r), same, worked) =
        try_again-ok ctx (put_attempt minio key (length bs)) (λ st. st.1.content ≡ bs)
          (λ attempt st kept. put.keeps attempt key st.1 (length bs) st.0 ∙ kept) 3 0 (failure "")
          (s, reader) (s', reader') tt refl h in
      let (from, fits, stored) = put.stores j key r (length bs) t (ap (λ o. o.1) worked) in
      let fits' : from + length bs ≤ length bs =
        subst (λ l. from + length bs ≤ length l) same fits in
      subst (λ x. object_at key x ≡ some bs) (ap (λ o. o.0.0) worked)
        (stored ∙ ap some (ap (λ l. take (length bs) (drop from l)) same ∙ drop_all from bs fits'))

  -- Where a put that works stores the bytes that it was told to, a put of the object works at one of
  -- the first three attempts, from wherever the attempts before it have left the reader, and the
  -- context is not done, the upload reports no error, and the bytes are stored.
  pub upload_object-reaches :
      (ctx : Cancellation) (key : String) (reader : Reader) (s : S) (k : ℕ)
      → IsPut
      → IsOpen ctx
      → k < 3
      → ((t : S) (r : Reader)
          → r.content ≡ reader.content
          → (minio.put_object k key r (length reader.content) t).2 ≡ ok tt)
      → let out = upload_object minio ctx key reader (length reader.content) s in
        (out.1 ≡ ok tt) × (object_at key out.0.0 ≡ some reader.content)
  unfolding upload_object retried
  upload_object-reaches ctx key reader s k put going early works =
      let size = length reader.content in
      let (j, t, a, t', answer, reached) =
        try_again-reaches ctx (put_attempt minio key size) (λ st. st.1.content ≡ reader.content)
          (λ attempt st kept. put.keeps attempt key st.1 size st.0 ∙ kept) going 3 0 k (failure "")
          (s, reader) refl (omega arith) (omega arith) (λ st kept. (tt, works st.0 st.1 kept)) in
      (
        ap (λ o. o.1) reached,
        ap (λ o. object_at key o.0.0) reached
            ∙ upload_object-stores ctx key reader s t'.0 t'.1 put reached,
      )
