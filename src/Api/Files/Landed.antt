-- ===== src/Api/Files/Landed.antt =====
-- api/files.go: an upload lands whole or not at all, and every change of a file is on record.
use hostd.Base.{
  lookup-placed, lookup-beside, ◌≡◌, refl, ◌∙◌, ◌⊎◌, inl, inr, true, false, ◌||◌, some, [], ◌++◌,
  arith, Text, beq, lookup, Bool-cases, if◌then◌else◌,
}
use hostd.Api.Files.{content, Volume, UploadFaults, land, upload_suffix}

-- An upload that fails, at whatever call, leaves what is at the path as it was; one that succeeds
-- leaves all of the bytes there; and nothing else changes but what was beside it under the name of
-- an upload.
pub land-lookup :
    (f : UploadFaults) (inside upload path : Text) (v : Volume)
    → beq (inside ++ upload_suffix) path ≡ false
    → (((land f inside upload v).0 ≡ true)
        × (lookup path (land f inside upload v).1
            ≡ (if beq inside path then some (content upload) else lookup path v)))
      ⊎ (((land f inside upload v).0 ≡ false)
          × (lookup path (land f inside upload v).1 ≡ lookup path v))
unfolding land
land-lookup f inside upload path v apart =
    let t = inside ++ upload_suffix in
    let b = content (if f.receive then f.received else upload) in
    elim (Bool-cases f.create) [
      | inl refused ↦ rw refused (inr (refl, refl))
      | inr created ↦ elim (Bool-cases (f.receive || f.sync || f.close || f.rename)) [
        | inl lost ↦ rw (created, lost) (inr (refl, lookup-beside t path (content []) b v apart))
        | inr whole ↦
            let fine : f.receive ≡ false = ground (arith, whole) in
            rw (created, whole)
              (inl (refl, lookup-placed t inside path (content []) b v apart ∙ (rw fine refl)))
      ]
    ]
