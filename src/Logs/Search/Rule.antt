-- ===== src/Logs/Search/Rule.antt =====
-- logs/store.go with logs/record.go: a search answers with the lines that a follower with the same
-- query would have kept.
use mathlib.Core.List.{reverse, reverse-cons}
use hostd.Base.{
  ℕ, zero, suc, drop, ◌-◌, ◌^◌, ◌≡◌, ◌≤◌, ◌<◌, refl, sym, ap, ◌∙◌, Bool, true, false, not, ◌&&◌,
  ◌||◌, none, pos, leb, beq_refl, some, List, [], ◌∷◌, ◌++◌, map, arith, Text, ltb, length, take,
  take_last, keep_if, if◌then◌else◌, reverse-take-reverse,
}
use hostd.Logs.{Record, Query, matches, differs}
use hostd.Logs.Writer.{Row, LogStore, row_of}
use hostd.Logs.Writer.Steps.{drain}
use hostd.Logs.Writer.Count.{rows_of, count-append, count-keep_if_le, lines_of}
use hostd.Logs.Writer.Count.Distinct.{is, IsDistinct, drain-table}
use hostd.Logs.Search.{selected, record_of, limit_of, search_rows, search, is_asked, int64, int_lt}
use hostd.Logs.Search.Order.{oldest_first, newest_first-reverse}

-- A condition of the statement is the negation of the follower's test.
is_asked_iff : (asked field : Text) → is_asked asked field ≡ not (differs asked field)
unfolding is_asked differs
is_asked_iff asked field = ground arith

since_iff :
    (since seq : ℕ)
    → since < 2 ^ 63
    → (not (ltb 0 since) || int_lt (int64 since) (pos seq)) ≡ not (ltb 0 since && leb seq since)
unfolding int64 int_lt
since_iff since seq h = ground arith

-- The statement selects what `Matches` keeps, but for the text.
selected-matches :
    (fts : Text → Text → Bool) (lower : Text → Text) (q : Query) (row : Row)
    → q.match ≡ []
    → q.since < 2 ^ 63
    → selected fts q row ≡ matches lower q (record_of row)
unfolding selected matches record_of
selected-matches fts lower q row e h =
    rw
      (
        e,
        is_asked_iff q.service row.service,
        is_asked_iff q.stream row.stream,
        is_asked_iff q.kind row.kind,
        is_asked_iff q.run row.run,
        since_iff q.since row.seq h,
        beq_refl [],
      )
      (chain (differs q.service row.service) (differs q.stream row.stream) (differs q.kind row.kind)
        (differs q.run row.run) (ltb 0 q.since && leb row.seq q.since))
  where
    chain :
        (a b c d e : Bool)
        → (not a && not b && not c && not d && not e && true) ≡ (
            if a
            then false
            else if b
            then false
            else if c
            then false
            else if d
            then false
            else if e
            then false
            else true)
    chain a b c d e = ground arith

keep_if-agree :
    (p q : Row → Bool) (rows : List Row) → ((r : Row) → p r ≡ q r) → keep_if p rows ≡ keep_if q rows
keep_if-agree p q [] h = refl
keep_if-agree p q (r ∷ rows) h = rw (h r, keep_if-agree p q rows h) refl

map-reverse : (f : Row → Record) (rows : List Row) → map f (reverse rows) ≡ reverse (map f rows)
map-reverse f [] = refl
map-reverse f (r ∷ rows) =
    rw (reverse-cons r rows, reverse-cons (f r) (map f rows))
      (map-append f (reverse rows) (r ∷ []) ∙ ap (λ l. l ++ f r ∷ []) (map-reverse f rows))
  where
    map-append : (f : Row → Record) (xs ys : List Row) → map f (xs ++ ys) ≡ map f xs ++ map f ys
    map-append f [] ys = refl
    map-append f (x ∷ xs) ys = ap (λ l. f x ∷ l) (map-append f xs ys)

map-drop : (f : Row → Record) (n : ℕ) (rows : List Row) → map f (drop n rows) ≡ drop n (map f rows)
map-drop f zero rows = refl
map-drop f (suc n) [] = refl
map-drop f (suc n) (r ∷ rows) = map-drop f n rows

length-map : (f : Row → Record) (rows : List Row) → length (map f rows) ≡ length rows
length-map f [] = refl
length-map f (r ∷ rows) = ap suc (length-map f rows)

search_rows-last :
    (fts : Text → Text → Bool) (q : Query) (rows : List Row)
    → ((n : ℕ) → rows_of (is n) rows ≤ 1)
    → search_rows fts q rows
      ≡ take_last (limit_of q) (map record_of (oldest_first (keep_if (selected fts q) rows)))
unfolding search_rows
search_rows-last fts q rows once =
    let found = keep_if (selected fts q) rows in
    let ordered = oldest_first found in
    rw
      (newest_first-reverse found λ n.
        omega (arith, once n, count-keep_if_le (λ (r : Row). r.seq) (is n) (selected fts q) rows))
      (sym (map-reverse record_of (take (limit_of q) (reverse ordered)))
        ∙ ap (map record_of) (reverse-take-reverse (limit_of q) ordered)
        ∙ map-drop record_of (length ordered - limit_of q) ordered
        ∙ ap (λ k. drop (k - limit_of q) (map record_of ordered))
            (sym (length-map record_of ordered)))

rows_of-map : (n : ℕ) (rs : List Record) → rows_of (is n) (map row_of rs) ≡ lines_of (is n) rs
unfolding row_of
rows_of-map n [] = refl
rows_of-map n (r ∷ rs) = omega (arith, rows_of-map n rs)

-- An open store answers from the state after the flush.
answer_open :
    (answer : LogStore → List Record) (closed : Bool) (s s' : LogStore)
    → closed ≡ false
    → (if closed || false then none else some (answer (if closed then s else s')))
      ≡ some (answer s')
answer_open answer true s s' e = absurd (ground arith)
answer_open answer false s s' e = refl

-- In an open store whose numbers are distinct, where SQLite refuses nothing, a search without a
-- text answers with the last of the lines, by their numbers, that a follower with the same query
-- keeps, up to its limit: those of the table, of the batch and of the queue, with their times cut
-- to milliseconds. So a reader finds each line that came to the queue before.
pub search-matches :
    (fts : Text → Text → Bool) (lower : Text → Text) (q : Query) (s : LogStore)
    → IsDistinct s
    → s.closed ≡ false
    → q.match ≡ []
    → q.since < 2 ^ 63
    → (search fts false false q s).0
      ≡ some (
          take_last (limit_of q) (
            map record_of (
              oldest_first (
                keep_if
                  (λ row. matches lower q (record_of row))
                  (s.table ++ map row_of (s.batch ++ s.queue))))))
unfolding search
search-matches fts lower q s d is_open e h =
    let all = s.table ++ map row_of (s.batch ++ s.queue) in
    answer_open (λ t. search_rows fts q t.table) s.closed s (drain false s) is_open
    ∙ ap (λ (t : LogStore). some (search_rows fts q t.table)) (drain-table s d)
    ∙ ap some (
        search_rows-last fts q all (λ n. omega (
          arith,
          d.once n,
          count-append (λ (r : Row). r.seq) (is n) s.table (map row_of (s.batch ++ s.queue)),
          rows_of-map n (s.batch ++ s.queue),
          count-append (λ (r : Record). r.seq) (is n) s.batch s.queue,
        ))
        ∙ ap (λ rows. take_last (limit_of q) (map record_of (oldest_first rows)))
            (keep_if-agree (selected fts q) (λ row. matches lower q (record_of row)) all
              (λ row. selected-matches fts lower q row e h)))
