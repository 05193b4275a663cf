-- ===== src/Tests/Fetches.antt =====
-- A fetch that is redirected to another origin, and address texts.
use automa_build.Prelude.{
  ℕ, zero, suc, ◌+◌, ◌≡◌, ◌≢◌, ◌≤◌, ◌↔◌, refl, Bool, true, false, none, some, List, [], ◌∷◌, ◌++◌,
  arith, All, units, text_eq, if◌then◌else◌, get_or, ltb, map, any,
}
use automa_build.SafeFetch.Ip.{parse_ipv4, parse_ipv6, IsByte}
use automa_build.SafeFetch.Ip.Show.{ip_to_string}
use automa_build.SafeFetch.Ip.RoundTrip.{parse_ipv4_iff}
use automa_build.SafeFetch.Cidr.{Cidr, cidr_contains, parse_cidr}
use automa_build.SafeFetch.Cidr.Prefix.{Agree, bits, cidr_contains_iff}
use automa_build.SafeFetch.Blocklist.{
  Blocklist, BlocklistOptions, create_blocklist, validate_address, permitted, validate_hostname,
}
use automa_build.SafeFetch.Blocklist.Permitted.{Permitted, validate_address_iff}
use automa_build.SafeFetch.Blocklist.Compiled.{create_blocklist-WellRanged}
use automa_build.SafeFetch.Blocklist.Defaults.{default_refuses, mapped, IsSpecial}
use automa_build.SafeFetch.Errors.{Checked, passed, blocked}
use automa_build.SafeFetch.Url.{Url, default_url_policy, extract_raw_host}
use automa_build.SafeFetch.Encoded.{detect_encoded_ip_literal, octal}
use automa_build.SafeFetch.Resolve.{
  Answer, answered, failed, ResolvedAddress, Context, resolve_family, resolve_and_validate,
}
use automa_build.SafeFetch.Resolve.Every.{EveryRecord, resolve_and_validate-EveryRecord}
use automa_build.SafeFetch.Request.{
  Network, FetchOptions, Connection, Header, RawResult, replied, Outcome, safe_origin,
  sensitive_names,
}
use automa_build.SafeFetch.Fetch.{safe_fetch}
use automa_build.SafeFetch.Fetch.Dialled.{IsSafe, safe_fetch-IsSafe}
use automa_build.SafeFetch.Fetch.Credentials.{IsDiscreet, safe_fetch-IsDiscreet}
use automa_build.SafeFetch.Fetch.Cap.{deliver, total, deliver-IsCapped}

abbrev no_options : BlocklistOptions
no_options = record {
  blocked_ranges = none;
  extra_blocked_ranges = none;
  allowed_ranges = none;
  blocked_hostnames = none;
  extra_blocked_hostnames = none;
}

abbrev default_list : Blocklist
default_list =
    get_or (create_blocklist no_options)
      (record { blocked = []; allowed = []; blocked_hostnames = [] })

default_made : create_blocklist no_options ≡ some default_list
unfolding create_blocklist
default_made = refl

abbrev here_url : Url
here_url = record {
  href = units "https://one.test/";
  protocol = units "https:";
  username = [];
  password = [];
  hostname = units "one.test";
  port = [];
  origin = units "https://one.test";
}

abbrev there_url : Url
there_url = record {
  href = units "https://two.test/";
  protocol = units "https:";
  username = [];
  password = [];
  hostname = units "two.test";
  port = [];
  origin = units "https://two.test";
}

-- The first server redirects to the second, which answers.
abbrev reply_of : ℕ → RawResult
reply_of zero = record {
  status = 302;
  location = some (units "https://two.test/");
  content_length = none;
}
reply_of (suc n) = record { status = 200; location = none; content_length = some 5 }

abbrev net : Network
net = record {
  clock = λ hop. 1000 + hop;
  parse_url = λ t.
      if text_eq t (units "https://one.test/")
      then some here_url
      else if text_eq t (units "https://two.test/")
      then some there_url
      else none;
  join_url = λ t base. none;
  resolve4 = λ hop name. answered (units "93.184.216.34" ∷ []);
  resolve6 = λ hop name. failed (some (units "ENODATA"));
  asks = λ hop request. request.url.hostname;
  exchange = λ hop request address. replied (reply_of hop);
}

abbrev options : FetchOptions
options = record { max_redirects = 2; max_response_bytes = 100; timeout_ms = 30000 }

abbrev token : List Header
token = record { key = units "Authorization"; value = units "Bearer t" } ∷ []

abbrev fetched : Outcome × List Connection
fetched =
    safe_fetch net default_list default_url_policy options 1000 (units "https://one.test/")
      (some (units "get")) none token

abbrev token_sent : Connection → Bool
token_sent k = any (λ (h : Header). text_eq h.key (units "authorization")) k.request.headers

-- two connections, the second without the token
two_connections : map token_sent fetched.1 ≡ true ∷ false ∷ []
unfolding safe_fetch create_blocklist units default_url_policy ip_to_string cidr_contains
    sensitive_names
two_connections = refl

safe_fetch-IsSafe_example : IsSafe default_list default_url_policy 3 fetched
safe_fetch-IsSafe_example =
    safe_fetch-IsSafe no_options net default_list default_url_policy options 1000
      (units "https://one.test/") (some (units "get")) none token default_made

safe_fetch-IsDiscreet_example :
    All (IsDiscreet (safe_origin net.parse_url (units "https://one.test/"))) fetched.1
safe_fetch-IsDiscreet_example =
    safe_fetch-IsDiscreet no_options net default_list default_url_policy options 1000
      (units "https://one.test/") (some (units "get")) none token default_made

abbrev one_address : List ResolvedAddress
one_address = record { text = units "93.184.216.34"; bytes = 93 ∷ 184 ∷ 216 ∷ 34 ∷ [] } ∷ []

abbrev public_answer : Answer
public_answer = answered (units "93.184.216.34" ∷ units "93.184.216.34" ∷ [])

abbrev first_hop : Context
first_hop = record { url = units "https://one.test/"; hop = 0 }

name_passes :
    resolve_and_validate default_list first_hop
      (units "one.test")
      public_answer
      (failed (some (units "ENODATA")))
    ≡ passed one_address
unfolding resolve_and_validate create_blocklist units ip_to_string cidr_contains
name_passes = refl

abbrev is_passed : Checked (List ResolvedAddress) → Bool
is_passed (passed found) = true
is_passed (blocked error) = false

-- A single loopback address among the records refuses the name.
name_refused :
    is_passed (
      resolve_and_validate default_list first_hop
        (units "one.test")
        public_answer
        (answered (units "::1" ∷ [])))
    ≡ false
unfolding resolve_and_validate create_blocklist units ip_to_string cidr_contains
name_refused = refl

resolve_and_validate-EveryRecord_example :
    EveryRecord default_list
      ((resolve_family public_answer).addresses
        ++ (resolve_family (failed (some (units "ENODATA")))).addresses)
      one_address
resolve_and_validate-EveryRecord_example =
    resolve_and_validate-EveryRecord default_list first_hop (units "one.test") public_answer
      (failed (some (units "ENODATA"))) one_address
      (create_blocklist-WellRanged no_options default_list default_made) name_passes

validate_address_iff_example :
    validate_address default_list (93 ∷ 184 ∷ 216 ∷ 34 ∷ []) (units "93.184.216.34") ≡ permitted
    ↔ Permitted default_list (93 ∷ 184 ∷ 216 ∷ 34 ∷ []) (units "93.184.216.34")
validate_address_iff_example =
    validate_address_iff default_list (93 ∷ 184 ∷ 216 ∷ 34 ∷ []) (units "93.184.216.34")
      (create_blocklist-WellRanged no_options default_list default_made) (omega arith)

default_refuses_example :
    (IsSpecial 127 0 0
      → validate_address default_list (127 ∷ 0 ∷ 0 ∷ 1 ∷ []) (units "127.0.0.1") ≢ permitted)
    × (validate_address default_list (mapped 127 0 0 1) (units "127.0.0.1") ≢ permitted)
default_refuses_example =
    default_refuses no_options default_list 127 0 0 1 (units "127.0.0.1") default_made refl refl
      (omega arith) (omega arith) (omega arith) (omega arith)

abbrev private_range : Cidr
private_range = record {
  bytes = 172 ∷ 16 ∷ 0 ∷ 0 ∷ [];
  prefix = 12;
  source = units "172.16.0.0/12";
}

private_range_parsed : parse_cidr (units "172.16.0.0/12") ≡ some private_range
unfolding parse_cidr units
private_range_parsed = refl

cidr_contains_iff_example :
    cidr_contains private_range (172 ∷ 31 ∷ 9 ∷ 1 ∷ []) ≡ true
    ↔ (◌≡◌ {A = ℕ} 4 4) × Agree 12 (bits (172 ∷ 16 ∷ 0 ∷ 0 ∷ [])) (bits (172 ∷ 31 ∷ 9 ∷ 1 ∷ []))
cidr_contains_iff_example =
    cidr_contains_iff private_range (172 ∷ 31 ∷ 9 ∷ 1 ∷ []) (omega arith) (omega arith)

parse_ipv4_iff_example :
    parse_ipv4 (units "10.0.0.255") ≡ some (10 ∷ 0 ∷ 0 ∷ 255 ∷ [])
    ↔ (◌≡◌ {A = ℕ} 4 4)
      × All IsByte (10 ∷ 0 ∷ 0 ∷ 255 ∷ [])
      × (ip_to_string (10 ∷ 0 ∷ 0 ∷ 255 ∷ []) ≡ units "10.0.0.255")
parse_ipv4_iff_example = parse_ipv4_iff (units "10.0.0.255") (10 ∷ 0 ∷ 0 ∷ 255 ∷ [])

octal_refused : parse_ipv4 (units "0177.0.0.1") ≡ none
unfolding parse_ipv4 units
octal_refused = refl

octal_named : detect_encoded_ip_literal (units "0177.0.0.1") ≡ some octal
unfolding detect_encoded_ip_literal units
octal_named = refl

raw_host : extract_raw_host (units "http://a@0x7f.1:80/x") ≡ some (units "0x7f.1")
unfolding extract_raw_host units
raw_host = refl

compressed :
    parse_ipv6 (units "[64:ff9b::10.0.0.1]")
    ≡ some (0 ∷ 0x64 ∷ 0xff ∷ 0x9b ∷ 0 ∷ 0 ∷ 0 ∷ 0 ∷ 0 ∷ 0 ∷ 0 ∷ 0 ∷ 10 ∷ 0 ∷ 0 ∷ 1 ∷ [])
unfolding parse_ipv6 units
compressed = refl

shown :
    ip_to_string (0xfd ∷ 0 ∷ 0x0e ∷ 0xc2 ∷ 0 ∷ 0 ∷ 0 ∷ 0 ∷ 0 ∷ 0 ∷ 0 ∷ 0 ∷ 0 ∷ 0 ∷ 0x02 ∷ 0x54 ∷ [])
    ≡ units "fd00:ec2::254"
unfolding ip_to_string units
shown = refl

subdomain_blocked : (validate_hostname default_list (units "Api.Internal.")).is_blocked ≡ true
unfolding validate_hostname create_blocklist units
subdomain_blocked = refl

deliver-IsCapped_example :
    (total (deliver 5 0 ((1 ∷ 2 ∷ 3 ∷ []) ∷ (4 ∷ 5 ∷ 6 ∷ []) ∷ [])).chunks ≤ 5)
    × ((deliver 5 0 ((1 ∷ 2 ∷ 3 ∷ []) ∷ (4 ∷ 5 ∷ 6 ∷ []) ∷ [])).is_cut ≡ ltb 5 6)
    × ((deliver 5 0 ((1 ∷ 2 ∷ 3 ∷ []) ∷ (4 ∷ 5 ∷ 6 ∷ []) ∷ [])).is_cut ≡ false
        → (deliver 5 0 ((1 ∷ 2 ∷ 3 ∷ []) ∷ (4 ∷ 5 ∷ 6 ∷ []) ∷ [])).chunks
          ≡ (1 ∷ 2 ∷ 3 ∷ []) ∷ (4 ∷ 5 ∷ 6 ∷ []) ∷ [])
deliver-IsCapped_example = deliver-IsCapped 5 ((1 ∷ 2 ∷ 3 ∷ []) ∷ (4 ∷ 5 ∷ 6 ∷ []) ∷ [])
