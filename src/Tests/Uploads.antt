-- ===== src/Tests/Uploads.antt =====
-- An upload to a storage whose first call fails after it has read the data, and rewinds afterwards.
use akave_crosschain_archive.Base.{
  ℕ, zero, suc, ◌+◌, ◌≤◌, String, true, false, some, [], ◌∷◌, length, take, drop, leb,
  if◌then◌else◌, ◌≡◌, refl, arith, Result, ok, err, failure, inl, inr, Bool-cases,
}
use akave_crosschain_archive.Base.Bytes.{Bytes}
use akave_crosschain_archive.Base.Table.{Table, lookup}
use akave_crosschain_archive.Archiver.Cycle.{put_object}
use akave_crosschain_archive.Archiver.Objects.{lookup-put_object}
use akave_crosschain_archive.Chain.{Cancellation}
use akave_crosschain_archive.ObjectStore.{Minio, Reader, upload_object, retried, try_again}
use akave_crosschain_archive.ObjectStore.Reached.{
  IsOpen, IsPut, upload_object-stores, upload_object-reaches,
}

abbrev put_later : ℕ → String → Reader → ℕ → Table Bytes → Table Bytes × Reader × Result (Unit {0})
put_later zero key reader size objects =
    (objects, record reader { position = size }, err (failure "slow down"))
put_later (suc attempt) key reader size objects =
    if leb size (length reader.content)
    then (
      put_object key (take size reader.content) objects,
      record reader { position = size },
      ok tt,
    )
    else (objects, reader, err (failure "unexpected EOF"))

abbrev slow : Minio (Table Bytes) Bytes
slow = record {
  bucket_exists = λ objects. ok true;
  make_bucket = λ objects. (objects, ok tt);
  put_object = put_later;
  get_object = λ attempt key objects. err (failure "slow down");
  list_objects = λ prefix objects. [];
  remove_object = λ key objects. (objects, ok tt);
}

slow-keeps :
    (attempt : ℕ) (key : String) (reader : Reader) (size : ℕ) (s : Table Bytes)
    → (put_later attempt key reader size s).1.content ≡ reader.content
slow-keeps zero key reader size s = refl
slow-keeps (suc attempt) key reader size s = ground arith

slow-stores :
    (attempt : ℕ) (key : String) (reader : Reader) (size : ℕ) (s : Table Bytes)
    → let out = put_later attempt key reader size s in
      out.2 ≡ ok tt
      → (from : ℕ) × (from + size ≤ length reader.content)
        × (lookup key out.0 ≡ some (take size (drop from reader.content)))
slow-stores zero key reader size s h = absurd (ground arith)
slow-stores (suc attempt) key reader size s h =
    elim (Bool-cases (leb size (length reader.content))) [
      | inl fits ↦ (0, ground arith, rw fits (lookup-put_object key (take size reader.content) s))
      | inr short ↦ absurd (ground arith)
    ]

slow-IsPut : IsPut slow lookup
slow-IsPut = record { keeps = slow-keeps; stores = slow-stores }

abbrev never : Cancellation
never = record { after_attempt = λ attempt. false; in_backoff = λ attempt. false }

never-IsOpen : IsOpen never
never-IsOpen = record { attempts = λ attempt. refl; backoffs = λ attempt. refl }

abbrev two_bytes : Reader
two_bytes = record { content = 1 ∷ 2 ∷ []; position = 0 }

uploaded :
    upload_object slow never "a" two_bytes 2 []
    ≡ ((put_object "a" (1 ∷ 2 ∷ []) [], record two_bytes { position = 2 }), ok tt)
unfolding upload_object retried try_again
uploaded = refl

upload_object-stores_example : lookup "a" (put_object "a" (1 ∷ 2 ∷ []) []) ≡ some (1 ∷ 2 ∷ [])
upload_object-stores_example =
    upload_object-stores slow lookup never "a" two_bytes [] (put_object "a" (1 ∷ 2 ∷ []) [])
      (record two_bytes { position = 2 }) slow-IsPut uploaded

upload_object-reaches_example :
    let out = upload_object slow never "a" two_bytes 2 [] in
    (out.1 ≡ ok tt) × (lookup "a" out.0.0 ≡ some (1 ∷ 2 ∷ []))
upload_object-reaches_example =
    upload_object-reaches slow lookup never "a" two_bytes [] 1 slow-IsPut never-IsOpen (omega arith)
      (λ t r kept. rw kept refl)
