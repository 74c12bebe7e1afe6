-- ===== src/Logs/Search.antt =====
-- logs/store.go: `Search` and `LastAt`.
--
-- SQLite's full text index is the parameter `fts`: whether a text matches an FTS5 expression.
pub mod Order
pub mod Rule
pub mod Phrase
pub mod Resume
use hostd.Base.{
  ℕ, ◌+◌, ◌-◌, ◌*◌, ◌/◌, ◌^◌, Bool, true, false, not, ◌&&◌, ◌||◌, Option, none, some, List, [], ◌∷◌,
  ◌++◌, map, Text, codes, beq, leb, ltb, ◌==◌, take, keep_if, if◌then◌else◌, ℤ, pos, negsuc,
  is_positive, pos_part,
}
use hostd.State.{u64}
use hostd.Logs.{Record, Query, stream_out, stream_err}
use hostd.Logs.Writer.{Row, LogStore, newest_first}
use hostd.Logs.Writer.Steps.{drain, while_open}
use mathlib.Core.List.{reverse}

-- `int64(n)` of an `uint64`.
unfoldable pub int64 : ℕ → ℤ
int64 n = if ltb n (2 ^ 63) then pos n else negsuc (u64 - 1 - n)

unfoldable pub int_lt : ℤ → ℤ → Bool
int_lt (pos a) (pos b) = ltb a b
int_lt (pos a) (negsuc b) = false
int_lt (negsuc a) (pos b) = true
int_lt (negsuc a) (negsuc b) = ltb b a

-- `strings.ReplaceAll(match, "\"", "\"\"")`
unfoldable pub double_quotes : Text → Text
double_quotes [] = []
double_quotes (c ∷ cs) = let rest = double_quotes cs in if c == 34 then 34 ∷ 34 ∷ rest else c ∷ rest

-- `ftsQuery`
unfoldable pub fts_query : Text → Text
unfolding double_quotes
fts_query match = 34 ∷ double_quotes match ++ 34 ∷ 42 ∷ []

-- A condition that is there only for a value that is asked for.
unfoldable pub is_asked : Text → Text → Bool
is_asked asked field = beq asked [] || beq field asked

-- The statement's WHERE.
unfoldable pub selected : (Text → Text → Bool) → Query → Row → Bool
selected fts q row =
    is_asked q.service row.service
    && is_asked q.stream row.stream
    && is_asked q.kind row.kind
    && is_asked q.run row.run
    && (not (ltb 0 q.since) || int_lt (int64 q.since) (pos row.seq))
    && (beq q.match [] || fts (fts_query q.match) row.text)

unfoldable pub limit_of : Query → ℕ
limit_of q = if is_positive q.limit then pos_part q.limit else 200

-- What is read back of a row, `time.UnixMilli(ms)`.
unfoldable pub record_of : Row → Record
record_of row = record {
  seq = row.seq;
  time = row.time_ms * 1000000;
  service = row.service;
  stream = row.stream;
  kind = row.kind;
  run = row.run;
  text = row.text;
}

-- The statement and the loop that reverses its rows.
unfoldable pub search_rows : (Text → Text → Bool) → Query → List Row → List Record
unfolding selected limit_of record_of
search_rows fts q rows =
    reverse (map record_of (take (limit_of q) (newest_first (keep_if (selected fts q) rows))))

-- `Search`; the flags: the flush, or the statement fails.
unfoldable pub search :
    (Text → Text → Bool) → Bool → Bool → Query → LogStore → Option (List Record) × LogStore
search fts unflushed refused q s =
    let s' = while_open s (drain unflushed s) in
    (if s.closed || refused then none else some (search_rows fts q s'.table), s')

-- The output of one service, without the events.
unfoldable pub is_output : Text → Row → Bool
is_output service row =
    beq row.service service && (beq row.stream stream_out || beq row.stream stream_err)

-- `COALESCE(MAX(time_ms), 0)`
unfoldable pub newest_ms : List Row → ℕ
newest_ms [] = 0
newest_ms (r ∷ rows) = let rest = newest_ms rows in if ltb rest r.time_ms then r.time_ms else rest

-- `LastAt`; 0 is Go's zero time.
unfoldable pub last_at : Bool → Bool → Text → LogStore → Option ℕ × LogStore
last_at unflushed refused service s =
    let s' = while_open s (drain unflushed s) in
    let newest = newest_ms (keep_if (is_output service) s'.table) in
    (
      if s.closed || refused
          then none
          else if newest == 0
          then some 0
          else some ((newest + 1) * 1000000),
      s',
    )
