-- ===== src/Tests/Accounts.antt =====
-- Examples of the pool.
use rust_adv_pop.Pool.Manager.{manager_connect-authenticated}
use rust_adv_pop.Transport.{send_command, read_line, connect_plain}
use rust_adv_pop.Response.{parse_status_line, has_status, parse_resp_code}
use rust_adv_pop.Builder
use rust_adv_pop.Client
use rust_adv_pop.Types.{connected, authenticated}
use rust_adv_pop.Prelude.{◌≡◌, refl, true, false, some, List, [], ◌∷◌, if◌then◌else◌}
use rust_adv_pop.Text.{
  codes, strip_prefix, chomp, trim_start, text_eq, contains, is_white, is_ascii_white,
}
use rust_adv_pop.Error.{PopResult, Result, err, is_ok, map_err}
use rust_adv_pop.Client.{Pop3Client}
use rust_adv_pop.Pool.{
  AccountKey, key_eq, RunError, timed_out, unknown_account, AccountPool, Pop3Pool, from_run_error,
  lookup, present, checkout, add_account, remove_account, new, Pop3ConnectionManager,
  has_line_break, manager_connect,
}
use rust_adv_pop.Pool.Registry.{
  Change, add, remove, changes, IsExclusive, checkout-remove_account, checkout-add_account,
  changes-IsExclusive,
}
use rust_adv_pop.Tests.Recovery.{bare, with_login, login_script}
use rust_adv_pop.Tests.{client_or, client_of, client_on, digest, reached}

abbrev ann : AccountKey
ann = record { host = codes "host"; port = 110; username = codes "ann" }

abbrev registered : Pop3Pool
registered = add_account ann bare (codes "ann") (codes "pw") new

-- A pool whose one connection is in use.
abbrev busy : AccountPool → Result RunError Pop3Client
busy pool = err timed_out

checkout-remove_account_example :
    checkout busy ann (remove_account ann registered).1
    ≡ (if key_eq ann ann then err (unknown_account ann) else checkout busy ann registered)
checkout-remove_account_example = checkout-remove_account busy ann ann registered

checkout-add_account_example :
    checkout busy ann (add_account ann bare (codes "ann") (codes "pw") new) ≡ (
      if present (lookup ann new.pools)
      then checkout busy ann new
      else if key_eq ann ann
      then map_err from_run_error (
          busy (record {
            max_size = 1;
            min_idle = some 0;
            test_on_check_out = true;
            retry_connection = false;
            config = new.config;
            manager = record { builder = bare; username = codes "ann"; password = codes "pw" };
          }))
      else checkout busy ann new)
checkout-add_account_example = checkout-add_account busy ann ann bare (codes "ann") (codes "pw") new

abbrev changes_made : List Change
changes_made =
    add ann bare (codes "ann") (codes "pw")
    ∷ add ann bare (codes "ann") (codes "x")
    ∷ remove ann
    ∷ []

new-IsExclusive : IsExclusive new.pools
unfolding new
new-IsExclusive = tt

changes-IsExclusive_example : IsExclusive (changes changes_made new).pools
changes-IsExclusive_example = changes-IsExclusive changes_made new new-IsExclusive

-- A manager over a builder that logs in on its own, which `connect_and_auth` cannot use.
abbrev manager : Pop3ConnectionManager
manager = record { builder = with_login; username = codes "ann"; password = codes "pw" }

abbrev made : PopResult Pop3Client
made = manager_connect digest manager (reached (login_script []))

abbrev pooled : Pop3Client
pooled = client_or (client_on connected []) made

made_ok : is_ok made ≡ true
unfolding manager_connect has_line_break Builder.connect Builder.authenticate_by Client.connect
    Client.login Client.user_pass Client.require_connected Client.send_and_check
    Client.check_no_crlf Client.set_state Client.probe Client.capa send_command read_line
    connect_plain parse_status_line has_status parse_resp_code strip_prefix chomp trim_start text_eq
    contains is_white is_ascii_white Client.promote
made_ok = refl

manager_connect-authenticated_example :
    (pooled.state ≡ authenticated)
    × (has_line_break manager.username ≡ false)
    × (has_line_break manager.password ≡ false)
manager_connect-authenticated_example =
    manager_connect-authenticated digest manager (reached (login_script [])) pooled
      (client_of (client_on connected []) made made_ok)
