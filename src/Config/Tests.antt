-- ===== src/Config/Tests.antt =====
-- Settings that are read from an environment, and the theorem at them.
use ipa_now.Common.{
  ℕ, ◌≡◌, ◌*◌, refl, true, false, none, some, List, [], String, ◌==◌, if◌then◌else◌, codes, same,
  member, has_suffix, split, trim_last, all_of,
}
use ipa_now.Http.Target.{is_trimmed, is_space, byte_length}
use ipa_now.Config.Values.{
  atoi, unsigned, digits_value, valid_hostname, are_host_labels, is_host_label, ends_in_alnum,
  is_user, has_entry, is_entry,
}
use ipa_now.Config.Outside.{Outside}
use ipa_now.Config.Parse.{
  accepted, rejected, ◌>>=◌, refuse, within, password, Config, info, second, max_upload, val,
  private_file, level_of, format_of, has_control, domain_host, parse_listen, check_domain,
  parse_domain, parse_host, parse_user, parse_pin, parse_key, parse_password, parse_auth,
  parse_known_hosts, check_email, parse_email, parse_mac, parse,
}
use ipa_now.Config.Sound.{Sound, parse-Sound}

abbrev environment : String → List ℕ
environment k =
    if k == "IPA_NOW_DEVICE_HOST"
    then codes "phone.local"
    else if k == "IPA_NOW_SSH_AUTH"
    then codes "password"
    else if k == "IPA_NOW_SSH_PASSWORD"
    then codes "alpine"
    else if k == "IPA_NOW_KNOWN_HOSTS_PATH"
    then codes "/etc/known"
    else []

abbrev outside : Outside
outside = record {
  get = environment;
  split_host_port =
      λ s. if same s (codes "127.0.0.1:8080") then some (codes "127.0.0.1", codes "8080") else none;
  parse_ip = λ s.
      if same s (codes "127.0.0.1")
      then some (record { is_loopback = true; is_private = false })
      else none;
  lower = λ s. s;
  absolute = λ s. some (codes "/srv/data");
  is_absolute = λ s. true;
  duration = λ s.
      if same s (codes "30m")
      then some (1800 * second)
      else if same s (codes "24h")
      then some (86400 * second)
      else none;
  address = λ s. some s;
  mac = λ s. none;
  file = λ s. some (record {
    is_regular = true;
    mode = 384;
    content = some (codes "# hosts\nphone ssh-rsa AAAA");
  });
  is_key = λ k p. false;
  are_known_hosts = λ s. true;
}

abbrev settings : Config
settings = record {
  listen = codes "127.0.0.1:8080";
  domain = [];
  data_dir = codes "/srv/data";
  device_host = codes "phone.local";
  device_port = 22;
  device_user = codes "mobile";
  unlock_pin = [];
  auth = password (codes "alpine");
  known_hosts = codes "/etc/known";
  apple_email = [];
  apple_password = [];
  apple_mac = [];
  job_timeout = 1800 * second;
  retention = 86400 * second;
  max_upload = 2147483648;
  queue_limit = 20;
  max_attempts = 3;
  log_level = info;
  is_json = false;
}

parses : parse outside ≡ accepted settings
unfolding parse ◌>>=◌ refuse within val private_file level_of format_of has_control domain_host
    parse_listen check_domain parse_domain parse_host parse_user parse_pin parse_key parse_password
    parse_auth parse_known_hosts check_email parse_email parse_mac atoi unsigned digits_value
    valid_hostname are_host_labels is_host_label ends_in_alnum is_user has_entry is_entry is_trimmed
    is_space byte_length same member has_suffix split trim_last all_of
parses = refl

-- 16 GiB
too_large :
    parse (record outside {
      get = λ k. if k == "IPA_NOW_MAX_UPLOAD_BYTES" then codes "17179869184" else environment k;
    })
    ≡ rejected max_upload
unfolding parse ◌>>=◌ refuse within val private_file level_of format_of has_control domain_host
    parse_listen check_domain parse_domain parse_host parse_user parse_pin parse_key parse_password
    parse_auth parse_known_hosts check_email parse_email parse_mac atoi unsigned digits_value
    valid_hostname are_host_labels is_host_label ends_in_alnum is_user has_entry is_entry is_trimmed
    is_space byte_length same member has_suffix split trim_last all_of
too_large = refl

parse-Sound_example : Sound outside settings
parse-Sound_example = parse-Sound outside settings parses
