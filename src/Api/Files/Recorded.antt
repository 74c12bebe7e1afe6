-- ===== src/Api/Files/Recorded.antt =====
-- api/files.go: each request that changes a file is recorded, whatever comes of it.
use hostd.Base.{
  ◌+◌, ◌%◌, ◌≡◌, refl, Bool, true, false, not, ◌||◌, Option, none, some, Text, codes, beq, lookup,
  delete, if◌then◌else◌,
}
use hostd.Strings.{has_suffix}
use hostd.Service.{valid_name}
use hostd.State.{Entry, result_ok, result_failed, u64, record_locked}
use hostd.State.Generation.{moved_unchanged}
use hostd.Supervisor.{Runtime}
use hostd.Api.{Code, accepted, invalid, failed, Request, Response, Daemon, respond}
use hostd.Api.Files.{
  Node, directory, content, Volume, UploadFaults, put_file, put_at, delete_file, delete_at,
  delete_found, refuse_file, answer_file, land, file_entry, op_file_put, op_file_delete,
}

module _ {r : Runtime} where
  -- The generation stays, in the answer and in the store, and there is one entry more.
  abbrev pub IsRecorded : Daemon r → Response × Daemon r × Volume → Type 0
  IsRecorded d (resp, d', v) =
      (resp.generation ≡ d.store.generation)
      × (d'.store.generation ≡ d.store.generation)
      × (d'.store.seq ≡ (d.store.seq + 1) % u64)

  respond-IsRecorded :
      (code : Code) (e : Entry) (d : Daemon r) (v : Volume)
      → IsRecorded d ((respond code e false d).0, (respond code e false d).1, v)
  unfolding respond record_locked
  respond-IsRecorded code e d v =
      (moved_unchanged d.store e.result, moved_unchanged d.store e.result, refl)

  if-IsRecorded :
      (d : Daemon r) (b : Bool) (x y : Response × Daemon r × Volume)
      → IsRecorded d x
      → IsRecorded d y
      → IsRecorded d (if b then x else y)
  if-IsRecorded d true x y h k = h
  if-IsRecorded d false x y h k = k

  refuse_file-IsRecorded :
      (e : Entry) (code : Code) (d : Daemon r) (v : Volume) → IsRecorded d (refuse_file e code d v)
  refuse_file-IsRecorded e code d v =
      respond-IsRecorded code (record e { result = result_failed }) d v

  answer_file-IsRecorded :
      (e : Entry) (o : Bool × Volume) (d : Daemon r) → IsRecorded d (answer_file e o d)
  answer_file-IsRecorded e (true, v) d =
      respond-IsRecorded accepted (record e { result = result_ok }) d v
  answer_file-IsRecorded e (false, v) d = refuse_file-IsRecorded e failed d v

  put_at-IsRecorded :
      (f : UploadFaults) (e : Entry) (path upload : Text) (root : Option (Text × Text))
      (d : Daemon r) (v : Volume)
      → IsRecorded d (put_at f e path upload root d v)
  put_at-IsRecorded f e path upload none d v = refuse_file-IsRecorded e failed d v
  put_at-IsRecorded f e path upload (some (volume, inside)) d v =
      if-IsRecorded d (beq inside (codes ".") || has_suffix path (codes "/")) _ _
        (refuse_file-IsRecorded e invalid d v) (answer_file-IsRecorded e (land f inside upload v) d)

  delete_found-IsRecorded :
      (fails : Bool) (e : Entry) (inside : Text) (there : Option Node) (d : Daemon r) (v : Volume)
      → IsRecorded d (delete_found fails e inside there d v)
  delete_found-IsRecorded fails e inside none d v = refuse_file-IsRecorded e failed d v
  delete_found-IsRecorded fails e inside (some directory) d v = refuse_file-IsRecorded e invalid d v
  delete_found-IsRecorded fails e inside (some (content text)) d v =
      if-IsRecorded d fails _ _ (refuse_file-IsRecorded e failed d v)
        (answer_file-IsRecorded e (true, delete inside v) d)

  delete_at-IsRecorded :
      (fails : Bool) (e : Entry) (root : Option (Text × Text)) (d : Daemon r) (v : Volume)
      → IsRecorded d (delete_at fails e root d v)
  delete_at-IsRecorded fails e none d v = refuse_file-IsRecorded e failed d v
  delete_at-IsRecorded fails e (some (volume, inside)) d v =
      if-IsRecorded d (beq inside (codes ".")) _ _ (refuse_file-IsRecorded e invalid d v)
        (delete_found-IsRecorded fails e inside (lookup inside v) d v)

  -- Whatever becomes of an upload or of a deletion, refused and failed ones included, there is one
  -- more entry on record, and the generation is what it was, in the store and in the answer.
  pub files-IsRecorded :
      (f : UploadFaults) (fails : Bool) (req : Request) (actor service path upload : Text)
      (root : Option (Text × Text)) (d : Daemon r) (v : Volume)
      → IsRecorded d (put_file f req actor service path upload root d v)
        × IsRecorded d (delete_file fails req actor service path root d v)
  unfolding put_file delete_file
  files-IsRecorded f fails req actor service path upload root d v =
      let put = file_entry req op_file_put service path actor in
      let del = file_entry req op_file_delete service path actor in
      (
        if-IsRecorded d (not (valid_name service)) _ _ (refuse_file-IsRecorded put invalid d v)
            (put_at-IsRecorded f put path upload root d v),
        if-IsRecorded d (not (valid_name service)) _ _ (refuse_file-IsRecorded del invalid d v)
            (delete_at-IsRecorded fails del root d v),
      )
