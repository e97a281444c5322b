-- ===== src/ObjectStore.antt =====
-- The client of the object storage, internal/storage/akave/client.go. The calls of minio-go are an
-- argument; a call that may be tried again takes the number of the attempt. The reader of an upload
-- is what it reads and how far it was read: all attempts share it.
pub mod Reached
use akave_crosschain_archive.Base.{
  ℕ, zero, suc, ◌+◌, String, Bool, true, false, ◌-◌, ◌&&◌, Option, none, some, List, [], ◌∷◌, ltb,
  if◌then◌else◌, Result, ok, err, Error, failure, wrap, canceled, context, ◌>>=◌,
}
use akave_crosschain_archive.Base.Bytes.{Bytes}
use akave_crosschain_archive.Chain.{Cancellation}

-- `ObjectInfo`, without the time of change.
pub record ObjectInfo : Type 0 where
  pub key : String
  pub size : ℕ

-- An `io.Reader` over bytes.
pub record Reader : Type 0 where
  pub content : Bytes
  pub position : ℕ

-- `MinioClient` for the bucket of the client; listed objects come one by one, some as errors.
pub record Minio (S : Type 0) (Object : Type 0) : Type 0 where
  pub bucket_exists : S → Result Bool
  pub make_bucket : S → S × Result (Unit {0})
  pub put_object : ℕ → String → Reader → ℕ → S → S × Reader × Result (Unit {0})
  pub get_object : ℕ → String → S → Result Object
  pub list_objects : String → S → List (Result ObjectInfo)
  pub remove_object : String → S → S × Result (Unit {0})

abbrev pub max_retries : ℕ
max_retries = 3

module _ {S : Type 0} {A : Type 0} where
  -- The return of a call that worked, and the rest of the loop otherwise.
  abbrev pub tried : (Error → S → S × Result A) → S × Result A → S × Result A
  tried next (s, ok a) = (s, ok a)
  tried next (s, err e) = next e s

  -- What follows a failed attempt.
  abbrev pub waited : Cancellation → ℕ → (Error → S → S × Result A) → Error → S → S × Result A
  waited ctx attempt next e s =
      if ctx.after_attempt attempt
      then (s, err canceled)
      else if ltb attempt (max_retries - 1) && ctx.in_backoff attempt
      then (s, err canceled)
      else next e s

  -- The loop of `withRetry`: the rounds left, the number of the attempt and the last error.
  unfoldable pub try_again :
      Cancellation → (ℕ → S → S × Result A) → ℕ → ℕ → Error → S → S × Result A
  try_again ctx call zero attempt last s = (s, err (wrap "after 3 attempts" last))
  try_again ctx call (suc rounds) attempt last s =
      tried (waited ctx attempt (try_again ctx call rounds (attempt + 1))) (call attempt s)

  -- `withRetry`
  unfoldable pub retried : Cancellation → (ℕ → S → S × Result A) → S → S × Result A
  retried ctx call s = try_again ctx call max_retries 0 (failure "") s

-- The objects up to the first error.
unfoldable pub collect : List (Result ObjectInfo) → Result (List ObjectInfo)
collect [] = ok []
collect (found ∷ rest) = do
  object ← context "listing objects" found
  objects ← collect rest
  ok (object ∷ objects)

module _ {S : Type 0} {Object : Type 0} (minio : Minio S Object) where
  abbrev pub bucket_made : S × Result (Unit {0}) → S × Result (Unit {0})
  bucket_made (s, r) = (s, context "creating bucket" r)

  abbrev pub bucket_checked : Result Bool → S → S × Result (Unit {0})
  bucket_checked (err e) s = (s, err (wrap "checking bucket existence" e))
  bucket_checked (ok true) s = (s, ok tt)
  bucket_checked (ok false) s = bucket_made (minio.make_bucket s)

  -- `ensureBucket`
  unfoldable pub ensure_bucket : S → S × Result (Unit {0})
  ensure_bucket s = bucket_checked (minio.bucket_exists s) s

  -- One attempt of an upload, with the reader as the attempts before have left it.
  abbrev pub put_attempt : String → ℕ → ℕ → S × Reader → (S × Reader) × Result (Unit {0})
  put_attempt key size attempt (s, reader) =
      let (s', reader', r) = minio.put_object attempt key reader size s in ((s', reader'), r)

  -- `Upload`
  unfoldable pub upload_object :
      Cancellation → String → Reader → ℕ → S → (S × Reader) × Result (Unit {0})
  upload_object ctx key reader size s = retried ctx (put_attempt key size) (s, reader)

  -- `Download`
  unfoldable pub download_object : Cancellation → String → S → S × Result Object
  download_object ctx key s = retried ctx (λ attempt t. (t, minio.get_object attempt key t)) s

  -- `List`
  unfoldable pub list_objects : String → S → Result (List ObjectInfo)
  list_objects prefix s = collect (minio.list_objects prefix s)

  -- `Delete`
  abbrev pub delete_object : String → S → S × Result (Unit {0})
  delete_object key s = minio.remove_object key s
