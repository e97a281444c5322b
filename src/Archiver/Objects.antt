-- ===== src/Archiver/Objects.antt =====
-- What the object storage of the archiver gives back.
use akave_crosschain_archive.Base.{String, false, Option, none, some, ◌≡◌, refl, ◌∙◌, eq_refl, ok}
use akave_crosschain_archive.Base.Bytes.{Bytes}
use akave_crosschain_archive.Base.Table.{Table, merged, lookup, lookup-upsert}
use akave_crosschain_archive.Archiver.Cycle.{put_object, download}

merged_same : (bs : Bytes) (o : Option Bytes) → merged bs (λ _. bs) o ≡ bs
merged_same bs none = refl
merged_same bs (some x) = refl

-- The bytes behind an upload are those that were put.
pub lookup-put_object :
    (key : String) (bs : Bytes) (objects : Table Bytes)
    → lookup key (put_object key bs objects) ≡ some bs
lookup-put_object key bs objects =
    lookup-upsert key key bs (λ _. bs) objects
    ∙ rw (eq_refl key, merged_same bs (lookup key objects)) refl

pub download-put_object :
    (key : String) (bs : Bytes) (objects : Table Bytes)
    → download false key (put_object key bs objects) ≡ ok bs
unfolding download
download-put_object key bs objects = rw (lookup-put_object key bs objects, download) refl
