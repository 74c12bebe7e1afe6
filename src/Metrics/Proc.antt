-- ===== src/Metrics/Proc.antt =====
-- metrics/proc.go: the counters in the texts of /proc.
--
-- White space is ASCII's, as the kernel writes it.
use hostd.Base.{
  ℕ, ◌+◌, Bool, true, false, not, ◌&&◌, ◌||◌, Option, none, some, List, [], ◌∷◌, ◌++◌, Text, codes,
  beq, ltb, leb, ◌==◌, length, drop, and_then, if◌then◌else◌,
}
use hostd.Strings.{is_space, is_empty, cut, split, trim_space}
use hostd.Metrics.{Float}

abbrev pub word : Text → List Text → List Text
word current rest = if is_empty current then rest else current ∷ rest

unfoldable pub fields_from : Text → Text → List Text
fields_from current [] = word current []
fields_from current (c ∷ cs) =
    let ended = word current (fields_from [] cs) in
    let going = fields_from (current ++ c ∷ []) cs in if is_space c then ended else going

-- `strings.Fields`
unfoldable pub fields_of : Text → List Text
fields_of = fields_from []

-- A field by its place, or nothing.
abbrev pub field : ℕ → List Text → Text
field n fields = first (drop n fields)
  where
    first : List Text → Text
    first [] = []
    first (t ∷ ts) = t

abbrev pub else_here : Bool → Text → Option Text → Option Text
else_here here cs (some rest) = some rest
else_here true cs none = some cs
else_here false cs none = none

-- What follows the last of a byte, `stat[strings.LastIndexByte(stat, ')')+1:]`.
unfoldable pub after_last : ℕ → Text → Option Text
after_last b [] = none
after_last b (c ∷ cs) = else_here (c == b) cs (after_last b cs)

abbrev pub utime_index : ℕ
utime_index = 11

abbrev pub stime_index : ℕ
stime_index = 12

abbrev pub rss_index : ℕ
rss_index = 21

abbrev pub tx_bytes_index : ℕ
tx_bytes_index = 8

pub record ProcCounters (f : Float) : Type 0 where
  pub cpu_ticks : f.Value
  pub rss_bytes : f.Value

module _ (f : Float) where
  -- The loop of `parseCPU`, from the field of an index on.
  unfoldable pub add_cpu : ℕ → f.Value → f.Value → List Text → Option (f.Value × f.Value)
  add_cpu i total idle [] = some (total, idle)
  add_cpu i total idle (t ∷ ts) =
      and_then (f.parse_float t)
        λ v. add_cpu (i + 1) (f.add total v) (if i == 3 || i == 4 then f.add idle v else idle) ts

  -- `parseCPU`: the total and the idle time.
  unfoldable pub parse_cpu : Text → Option (f.Value × f.Value)
  parse_cpu stat =
      let fields = fields_of (cut 10 stat).0 in
      if ltb (length fields) 5 || not (beq (field 0 fields) (codes "cpu"))
      then none
      else add_cpu 0 (f.of_nat 0) (f.of_nat 0) (drop 1 fields)

  -- `MemTotal` and `MemAvailable` so far, over the lines.
  unfoldable pub add_meminfo :
      List Text → Option f.Value → Option f.Value → Option (Option f.Value × Option f.Value)
  add_meminfo [] total available = some (total, available)
  add_meminfo (line ∷ lines) total available =
      let (key, rest, found) = cut 58 line in
      let fields = fields_of rest in
      let skipped = add_meminfo lines total available in
      if not found
      then skipped
      else if not (beq key (codes "MemTotal")) && not (beq key (codes "MemAvailable"))
      then skipped
      else if is_empty fields
      then skipped
      else and_then (f.parse_float (field 0 fields)) λ v.
        let bytes = f.mul v (f.of_nat 1024) in
        let of_total = add_meminfo lines (some bytes) available in
        let of_available = add_meminfo lines total (some bytes) in
        if beq key (codes "MemTotal") then of_total else of_available

  -- `parseMeminfo`: what is used, and the total.
  unfoldable pub parse_meminfo : Text → Option (f.Value × f.Value)
  parse_meminfo meminfo =
      and_then (add_meminfo (split 10 meminfo) none none)
        λ (total, available). and_then total λ t. and_then available λ a. some (f.sub t a, t)

  -- The loop of `parseNetDev`; the flag: an interface was found.
  unfoldable pub add_netdev : List Text → Bool → f.Value → f.Value → Option (f.Value × f.Value)
  add_netdev [] found rx tx = if found then some (rx, tx) else none
  add_netdev (line ∷ lines) found rx tx =
      let (name, rest, has_name) = cut 58 line in
      let fields = fields_of rest in
      let skipped = add_netdev lines found rx tx in
      if not has_name
      then skipped
      else if is_empty (trim_space name) || beq (trim_space name) (codes "lo")
      then skipped
      else if leb (length fields) tx_bytes_index
      then skipped
      else and_then (f.parse_float (field 0 fields)) λ received.
        and_then (f.parse_float (field tx_bytes_index fields))
          λ transmitted. add_netdev lines true (f.add rx received) (f.add tx transmitted)

  -- `parseNetDev`: received and transmitted bytes.
  unfoldable pub parse_netdev : Text → Option (f.Value × f.Value)
  parse_netdev netdev = add_netdev (split 10 netdev) false (f.of_nat 0) (f.of_nat 0)

  unfoldable pub parse_load : Text → Option f.Value
  parse_load loadavg =
      let fields = fields_of loadavg in
      if is_empty fields then none else f.parse_float (field 0 fields)

  -- `parseProcStat`; the size of a page is an argument.
  unfoldable pub parse_proc_stat : ℕ → Text → Option (ProcCounters f)
  parse_proc_stat page stat = and_then (after_last 41 stat) λ rest.
      let fields = fields_of rest in
      if leb (length fields) rss_index
      then none
      else and_then (f.parse_float (field utime_index fields)) λ utime.
        and_then (f.parse_float (field stime_index fields)) λ stime.
          and_then (f.parse_float (field rss_index fields)) λ rss.
            some (record { cpu_ticks = f.add utime stime; rss_bytes = f.mul rss (f.of_nat page) })
