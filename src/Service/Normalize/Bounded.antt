-- ===== src/Service/Normalize/Bounded.antt =====
-- service/service.go: what holds of a declaration that is accepted, field by field.
use hostd.Base.{
  ℕ, ◌%◌, ◌≡◌, ◌≤◌, refl, ◌⊎◌, inl, inr, Bool, true, false, not, Option, none, some, List, [], ◌∷◌,
  Text, codes, arith, beq_iff, any, All, length, Bool-cases, Option-cases, pos, negsuc, ℤ, is_some,
  is_negative, is_zero,
}
use hostd.Strings.{trim_prefix, contains_any, contains_byte, has_prefix, is_empty}
use hostd.Service.{
  Service, state_running, state_stopped, restart_always, restart_on_failure, restart_never,
  overlap_allow, overlap_skip, is_job,
}
use hostd.Service.Names.{IsNameByte, IsNameEdge, BeginsWith, EndsWith, valid_name-IsNameByte}
use hostd.Service.Duration.{parse_duration}
use hostd.Service.Address.{Mount, mounts, Port, published_ports}
use hostd.Service.Address.Bounds.{
  IsPublishable, IsMountable, published_ports-IsPublishable, mounts-IsMountable,
}
use hostd.Service.Normalize.{
  ok, check_domain, check_domains, is_port, normalize_proxy, check_run_timeout, check_every,
  normalize,
}
use hostd.Service.Normalize.Complete.{IsNormal, IsNormalService, IsScheduled, normalize-IsNormal}

-- A name of a host, with a scheme or without, and nothing else.
pub record IsDomain (domain : Text) : Type 0 where
  pub some_text : is_empty domain ≡ false
  pub bare :
      is_empty (trim_prefix (trim_prefix domain (codes "https://")) (codes "http://")) ≡ false
  pub plain :
      contains_any
        (trim_prefix (trim_prefix domain (codes "https://")) (codes "http://"))
        (b' ' ∷ 9 ∷ codes "/{}")
      ≡ false

-- No port of a proxy, or, in thousandths, a whole one from 1 to 65535 of a service with a domain.
abbrev pub IsUpstream : Service → Type 0
IsUpstream s =
    (is_zero s.upstream_port ≡ true)
    ⊎ ((n : ℕ) × (s.upstream_port ≡ pos n)
        × (n % 1000 ≡ 0)
        × (1000 ≤ n)
        × (n ≤ 65_535_000)
        × (is_empty s.domain ≡ false))

-- A duration that is given, in nanoseconds, is at least so long.
abbrev pub IsAtLeast : ℕ → Text → Type 0
IsAtLeast least text = (n : ℕ) × (parse_duration text ≡ some (pos n)) × (least ≤ n)

pub record IsJob (s : Service) : Type 0 where
  pub every : IsAtLeast 1_000_000_000 s.every
  pub overlap : (s.overlap ≡ overlap_allow) ⊎ (s.overlap ≡ overlap_skip)
  pub parallel : is_negative s.max_parallel ≡ false
  pub run_timeout : (is_empty s.run_timeout ≡ true) ⊎ IsAtLeast 1 s.run_timeout
  pub restart : s.restart ≡ restart_never
  pub ports : is_empty s.ports ≡ true

pub record IsBounded (is_ip : Text → Bool) (s : Service) : Type 0 where
  pub name :
      (1 ≤ length s.name)
      × (length s.name ≤ 64)
      × All IsNameByte s.name
      × BeginsWith IsNameEdge s.name
      × EndsWith IsNameEdge s.name
  pub image : is_empty s.image ≡ false
  pub dir : (is_empty s.dir ≡ true) ⊎ (has_prefix s.dir (codes "/") ≡ true)
  pub ports : (ps : List Port) × (published_ports is_ip s ≡ some ps) × All (IsPublishable is_ip) ps
  pub volumes : (ms : List Mount) × (mounts s ≡ some ms) × All IsMountable ms
  pub domains : All IsDomain s.domain
  pub upstream : IsUpstream s
  pub schedule : ((is_job s ≡ true) × IsJob s) ⊎ ((is_job s ≡ false) × IsNormalService s)
  pub memory : is_negative s.memory ≡ false
  pub cpus : is_negative s.cpus ≡ false
  pub env : any (λ e. not (contains_byte b'=' e)) s.env ≡ false
  pub state : (s.state ≡ state_running) ⊎ (s.state ≡ state_stopped)
  pub restart :
      (s.restart ≡ restart_always) ⊎ (s.restart ≡ restart_on_failure) ⊎ (s.restart ≡ restart_never)
  pub stop_timeout : is_negative s.stop_timeout ≡ false

check_every-IsAtLeast : (text : Text) → check_every text ≡ none → IsAtLeast 1_000_000_000 text
unfolding check_every
check_every-IsAtLeast text h = elim (Option-cases (parse_duration text)) [
  | inl e ↦ absurd (ground arith)
  | inr (pos n, e) ↦ (n, e, ground arith)
  | inr (negsuc n, e) ↦ absurd (ground arith)
]

check_run_timeout-IsAtLeast :
    (text : Text) → check_run_timeout text ≡ none → (is_empty text ≡ true) ⊎ IsAtLeast 1 text
check_run_timeout-IsAtLeast text h = elim (Bool-cases (is_empty text)) [
  | inl e ↦ inl e
  | inr e ↦ elim (Option-cases (parse_duration text)) [
    | inl f ↦ absurd (unfold check_run_timeout in ground arith)
    | inr (pos n, f) ↦ inr (n, f, unfold check_run_timeout in ground arith)
    | inr (negsuc n, f) ↦ absurd (unfold check_run_timeout in ground arith)
  ]
]

check_domain-IsDomain : (d : Text) → check_domain d ≡ none → IsDomain d
unfolding check_domain
check_domain-IsDomain d h = record {
  some_text = ground arith;
  bare = ground arith;
  plain = ground arith;
}

check_domains-IsDomain : (ds : List Text) → check_domains ds ≡ none → All IsDomain ds
unfolding check_domains
check_domains-IsDomain [] h = tt
check_domains-IsDomain (d ∷ ds) h = elim (Option-cases (check_domain d)) [
  | inl e ↦ (check_domain-IsDomain d e, check_domains-IsDomain ds (ground arith))
  | inr (p, e) ↦ absurd (ground arith)
]

normalize_proxy-domains : (s : Service) → normalize_proxy s ≡ none → All IsDomain s.domain
normalize_proxy-domains s h = elim (Option-cases (check_domains s.domain)) [
  | inl e ↦ check_domains-IsDomain s.domain e
  | inr (p, e) ↦ absurd (unfold normalize_proxy in ground arith)
]

port_of :
    (p : ℤ)
    → is_port p ≡ true
    → (n : ℕ) × (p ≡ pos n) × (n % 1000 ≡ 0) × (1000 ≤ n) × (n ≤ 65_535_000)
unfolding is_port
port_of (pos n) h = (n, refl, ground arith, ground arith, ground arith)
port_of (negsuc n) h = cc

normalize_proxy-IsUpstream : (s : Service) → normalize_proxy s ≡ none → IsUpstream s
normalize_proxy-IsUpstream s h = elim (Bool-cases (is_zero s.upstream_port)) [
  | inl e ↦ inl e
  | inr e ↦
      let port : is_port s.upstream_port ≡ true = (unfold normalize_proxy in ground arith) in
      let (n, same, whole, from, to) = port_of s.upstream_port port in
      inr (n, same, whole, from, to, unfold normalize_proxy in ground arith)
]

IsScheduled-IsJob :
    (s : Service)
    → IsScheduled s
    → ((is_job s ≡ true) × IsJob s) ⊎ ((is_job s ≡ false) × IsNormalService s)
IsScheduled-IsJob s (inr k) = inr k
IsScheduled-IsJob s (inl (job, n)) = inl (
  job,
  record {
    every = check_every-IsAtLeast s.every n.every;
    overlap =
        ground (arith, n.overlap, beq_iff s.overlap overlap_allow, beq_iff s.overlap overlap_skip);
    parallel = n.parallel;
    run_timeout = check_run_timeout-IsAtLeast s.run_timeout n.run_timeout;
    restart = (beq_iff s.restart restart_never).0 n.restart;
    ports = n.ports;
  },
)

IsNormal-IsBounded : (is_ip : Text → Bool) (s : Service) → IsNormal is_ip s → IsBounded is_ip s
IsNormal-IsBounded is_ip s n = record {
  name = valid_name-IsNameByte s.name n.name;
  image = n.image;
  dir = ground (arith, n.dir);
  ports = read (published_ports is_ip s) refl n.ports;
  volumes = mounted (mounts s) refl n.volumes;
  domains = normalize_proxy-domains s n.proxy;
  upstream = normalize_proxy-IsUpstream s n.proxy;
  schedule = IsScheduled-IsJob s n.schedule;
  memory = n.memory;
  cpus = n.cpus;
  env = n.env;
  state = ground (arith, n.state, beq_iff s.state state_running, beq_iff s.state state_stopped);
  restart = ground (
    arith,
    n.restart,
    beq_iff s.restart restart_always,
    beq_iff s.restart restart_on_failure,
    beq_iff s.restart restart_never,
  );
  stop_timeout = n.stop_timeout;
}
  where
    read :
        (o : Option (List Port))
        → published_ports is_ip s ≡ o
        → is_some o ≡ true
        → (ps : List Port) × (published_ports is_ip s ≡ some ps) × All (IsPublishable is_ip) ps
    read none e h = absurd (ground (arith, h))
    read (some ps) e h = (ps, e, published_ports-IsPublishable is_ip s ps e)

    mounted :
        (o : Option (List Mount))
        → mounts s ≡ o
        → is_some o ≡ true
        → (ms : List Mount) × (mounts s ≡ some ms) × All IsMountable ms
    mounted none e h = absurd (ground (arith, h))
    mounted (some ms) e h = (ms, e, mounts-IsMountable s ms e)

-- A declaration that is accepted has become a service within its bounds. Its name has 1 to 64 bytes,
-- lower-case letters, digits, dashes and underscores, with a letter or a digit at each end; its image
-- is named and its directory absolute, where it has one; its ports are from 1 to 65535, its volumes
-- have absolute targets and none is the socket of a runtime; a domain is a bare host, and the
-- proxy's port is from 1 to 65535 and has a domain; its state and restart policy are known ones and
-- its numbers not negative; and it is either a job with an interval of a second at least and a
-- positive limit for its runs, if any, that publishes nothing and is never restarted, or a service
-- with none of a job's fields.
pub normalize-IsBounded :
    (is_ip : Text → Bool) (s t : Service) → normalize is_ip s ≡ ok t → IsBounded is_ip t
normalize-IsBounded is_ip s t h = IsNormal-IsBounded is_ip t (normalize-IsNormal is_ip s t h)
