-- ===== src/HttpClient/Args.antt =====
-- `Args` and `parse_args` of apache/http_client/http_client.cpp.
use linux_scheduler_comparis.Base.{ℕ, Option, none, some, List, Text, codes, ◌==◌, if◌then◌else◌}
use linux_scheduler_comparis.Base.Int.{ℤ, pos}
use linux_scheduler_comparis.Base.Outcome.{Outcome, done, ◌>>=◌}
use linux_scheduler_comparis.Text.Number.{stoi}
use linux_scheduler_comparis.Getopt.{Call}
use linux_scheduler_comparis.Getopt.Loop.{parse_with}

pub record Args : Type 0 where
  pub ivp4_addr : Text
  pub num_requests : ℤ
  pub output_file : Text

unfoldable pub default_args : Args
default_args = record {
  ivp4_addr = codes "127.0.0.1";
  num_requests = pos 100;
  output_file = codes "request.log";
}

set_address : Text → Args → Outcome Args
set_address text args = done (record args { ivp4_addr = text })

set_file : Text → Args → Outcome Args
set_file text args = done (record args { output_file = text })

set_requests : Text → Args → Outcome Args
set_requests text args = do num ← stoi text; done (record args { num_requests = num })

unfoldable pub handler : ℕ → Option (Text → Args → Outcome Args)
unfolding set_address set_file set_requests
handler c =
    if c == b'i'
    then some set_address
    else if c == b'f'
    then some set_file
    else if c == b'n'
    then some set_requests
    else none

unfoldable pub parse_args : List Text → List Call → Outcome Args
parse_args argv calls = parse_with handler argv default_args calls
