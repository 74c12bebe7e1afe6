-- ===== src/State/Recent.antt =====
-- The entries kept in memory are the newest of all that were recorded.
use hostd.Base.{
  ◌≤◌, ◌≡◌, sym, ap, ◌∙◌, List, [], ◌∷◌, ◌++◌, append_assoc, append-nil, arith, length, take_last,
  take_last-take_last, length-take_last-le, take_last_idem, take_last_all, Bool-cases, ltb, inl,
  inr,
}
use hostd.State.{Store, Entry, max_audit_memory, completed, remember, record_locked}
use hostd.State.Generation.{Call, record_all}

-- The entries that the calls complete, in order.
unfoldable pub completed_all : Store → List Call → List Entry
completed_all s [] = []
completed_all s (c ∷ cs) =
    completed s c.now c.entry c.changed ∷ completed_all (record_locked s c.now c.entry c.changed) cs

remember-take_last :
    (entries : List Entry) (e : Entry)
    → remember entries e ≡ take_last max_audit_memory (entries ++ e ∷ [])
unfolding remember
remember-take_last entries e =
    elim (Bool-cases (ltb max_audit_memory (length (entries ++ e ∷ [])))) [
      | inl h ↦ rw h
      | inr h ↦ rw h (sym (take_last_all max_audit_memory (entries ++ e ∷ []) (ground arith)))
    ]

recent-record_all :
    (s : Store) (cs : List Call)
    → take_last max_audit_memory s.recent ≡ s.recent
    → (record_all s cs).recent ≡ take_last max_audit_memory (s.recent ++ completed_all s cs)
unfolding record_all completed_all
recent-record_all s [] h = rw (append-nil, h)
recent-record_all s (c ∷ cs) h =
    let e = completed s c.now c.entry c.changed in
    let s' = record_locked s c.now c.entry c.changed in
    let newest : s'.recent ≡ take_last max_audit_memory (s.recent ++ e ∷ []) =
      (unfold record_locked in remember-take_last s.recent e) in
    recent-record_all s' cs (rw newest (take_last_idem max_audit_memory (s.recent ++ e ∷ [])))
    ∙ ap (λ l. take_last max_audit_memory (l ++ completed_all s' cs)) newest
    ∙ take_last-take_last max_audit_memory (s.recent ++ e ∷ []) (completed_all s' cs)
    ∙ ap (λ l. take_last max_audit_memory l) (append_assoc s.recent (e ∷ []) (completed_all s' cs))

-- From a store whose memory is within its ceiling, after any calls of `Record` the memory is the
-- newest thousand of the old entries and of those that the calls completed, and no more.
pub recent-newest :
    (s : Store) (cs : List Call)
    → length s.recent ≤ max_audit_memory
    → ((record_all s cs).recent ≡ take_last max_audit_memory (s.recent ++ completed_all s cs))
      × (length (record_all s cs).recent ≤ max_audit_memory)
recent-newest s cs h =
    let e = recent-record_all s cs (take_last_all max_audit_memory s.recent h) in
    (e, rw e (length-take_last-le max_audit_memory (s.recent ++ completed_all s cs)))
