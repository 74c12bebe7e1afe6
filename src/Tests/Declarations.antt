-- ===== src/Tests/Declarations.antt =====
-- The theorems on declarations, each at one declaration.
use hostd.Base.{◌≡◌, refl, Bool, true, Text, beq, list_eq}
use hostd.Strings.{
  contains_byte, trim_space, is_space, cut, split, has_prefix, contains_any, trim_prefix, trim_left,
  trim_right, trim_right_of,
}
use hostd.Service.{is_job, valid_name}
use hostd.Service.Duration.{atoi, add_term, is_digit, parse_duration, unit_of}
use hostd.Service.Address.{published_ports, mounts, parse_port, parse_mount, clean, port_number}
use hostd.Service.Normalize.{
  normalize, ok, normalize_container, normalize_proxy, check_domains, normalize_schedule,
  check_domain, check_every, check_run_timeout, is_port, normalize_job, normalize_rest,
}
use hostd.Service.Normalize.Bounded.{IsBounded, normalize-IsBounded}
use hostd.Tests.{web}

abbrev any_ip : Text → Bool
any_ip s = true

normal_web : normalize any_ip web ≡ ok web
unfolding normalize valid_name trim_space is_space normalize_container published_ports parse_port
    beq cut split atoi mounts parse_mount has_prefix contains_byte normalize_proxy check_domains
    normalize_schedule list_eq clean port_number is_digit check_domain check_every check_run_timeout
    is_port normalize_job normalize_rest is_job contains_any trim_prefix trim_left trim_right
    trim_right_of parse_duration add_term unit_of
normal_web = refl

normalize-IsBounded_example : IsBounded any_ip web
normalize-IsBounded_example = normalize-IsBounded any_ip web web normal_web
