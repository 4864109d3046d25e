-- ===== src/Config/Parse.antt =====
-- `Parse` (internal/config/config.go). An error is named by the setting that it is about.
use ipa_now.Common.{
  ℕ, ◌*◌, ◌^◌, ◌%◌, String, Bool, true, false, not, ◌&&◌, ◌||◌, Option, none, some, List, [], ◌∷◌,
  ltb, nat_eq, if◌then◌else◌, codes, same, is_text, member, has_suffix, split,
}
use ipa_now.Http.Guard.{append}
use ipa_now.Http.Target.{is_trimmed, byte_length}
use ipa_now.Config.Values.{atoi, valid_hostname, is_user, is_control, has_entry}
use ipa_now.Config.Outside.{Ip, File, Outside}

pub data Setting : Type 0 where
  listen domain domain_port data_dir device_host device_port device_user unlock_pin : Setting
  ssh_auth ssh_key ssh_password known_hosts apple_email apple_mac job_timeout retention : Setting
  max_upload queue_limit max_attempts log_level log_format : Setting

pub data Checked (A : Type 0) : Type 0 where
  accepted : A → Checked A
  rejected : Setting → Checked A

module _ {A B : Type 0} where
  abbrev pub continue : Checked A → (A → Checked B) → Checked B
  continue (accepted a) f = f a
  continue (rejected e) f = rejected e

  infixl 5 ◌>>=◌ ◌>>◌
  unfoldable pub ◌>>=◌ : Checked A → (A → Checked B) → Checked B
  ◌>>=◌ m f = continue m f

  abbrev pub ◌>>◌ : Checked A → Checked B → Checked B
  m >> k = m >>= λ _. k

-- `if test { return c, errors.New(...) }`
unfoldable pub refuse : Bool → Setting → Checked Unit
refuse test e = if test then rejected e else accepted tt

abbrev pub or_rejected : {A : Type 0} → Setting → Option A → Checked A
or_rejected e none = rejected e
or_rejected e (some a) = accepted a

-- `if e != nil || n < low || n > high { return c, errors.New(...) }`
unfoldable pub within : Setting → ℕ → ℕ → Option ℕ → Checked ℕ
within e low high none = rejected e
within e low high (some n) = if ltb n low || ltb high n then rejected e else accepted n

pub data Auth : Type 0 where
  key : List ℕ → List ℕ → Auth
  password : List ℕ → Auth

pub data Level : Type 0 where
  debug info warn error : Level

pub record Config : Type 0 where
  pub listen : List ℕ
  pub domain : List ℕ
  pub data_dir : List ℕ
  pub device_host : List ℕ
  pub device_port : ℕ
  pub device_user : List ℕ
  pub unlock_pin : List ℕ
  pub auth : Auth
  pub known_hosts : List ℕ
  pub apple_email : List ℕ
  pub apple_password : List ℕ
  pub apple_mac : List ℕ
  pub job_timeout : ℕ
  pub retention : ℕ
  pub max_upload : ℕ
  pub queue_limit : ℕ
  pub max_attempts : ℕ
  pub log_level : Level
  pub is_json : Bool

abbrev pub second : ℕ
second = 1000000000

abbrev pub or_default : List ℕ → List ℕ → List ℕ
or_default d [] = d
or_default d (c ∷ cs) = c ∷ cs

abbrev pub is_reachable : Ip → Bool
is_reachable ip = ip.is_loopback || ip.is_private

abbrev pub is_ip : Option Ip → Bool
is_ip none = false
is_ip (some _) = true

abbrev pub is_private : Option File → Bool
is_private none = false
is_private (some f) =
    f.is_regular && nat_eq (f.mode % 64) 0 && elim f.content [ none ↦ false | some _ ↦ true ]

abbrev pub content_of : Option File → Option (List ℕ)
content_of none = none
content_of (some f) = f.content

unfoldable pub level_of : List ℕ → Checked Level
unfolding same
level_of v =
    if is_text v "debug"
    then accepted debug
    else if is_text v "info"
    then accepted info
    else if is_text v "warn" || is_text v "warning"
    then accepted warn
    else if is_text v "error"
    then accepted error
    else rejected log_level

unfoldable pub format_of : List ℕ → Checked Bool
unfolding same
format_of v =
    if is_text v "json"
    then accepted true
    else if is_text v "text"
    then accepted false
    else rejected log_format

-- Some character of the text is a control character.
unfoldable pub has_control : List ℕ → Bool
has_control [] = false
has_control (c ∷ cs) = is_control c || has_control cs

module _ (o : Outside) where
  unfoldable pub val : String → String → List ℕ
  val k d = or_default (codes d) (o.get (append "IPA_NOW_" k))

  -- `privateFile`
  unfoldable pub private_file : List ℕ → Bool
  private_file p = o.is_absolute p && is_private (o.file p)

  -- The address to listen on must be reachable from this host or its network only, if there is no domain.
  unfoldable pub parse_listen : Checked (List ℕ × Ip)
  unfolding val atoi
  parse_listen = do
    hp ← or_rejected listen (o.split_host_port (val "LISTEN" "127.0.0.1:8080"))
    within listen 1 65535 (atoi hp.1)
    ip ← or_rejected listen (o.parse_ip hp.0)
    accepted (val "LISTEN" "127.0.0.1:8080", ip)

  -- The host of a domain that may have a port
  unfoldable pub domain_host : List ℕ → Checked (List ℕ)
  unfolding atoi member
  domain_host d =
      if member b':' d
      then (do
        hp ← or_rejected domain (o.split_host_port d)
        within domain_port 1 65535 (atoi hp.1)
        accepted hp.0)
      else accepted d

  unfoldable pub check_domain : Ip → List ℕ → Checked (List ℕ)
  unfolding same is_trimmed has_suffix valid_hostname
  check_domain ip d =
      if same d [] then (refuse (not (is_reachable ip)) listen >> accepted d) else (do
        host ← domain_host d
        refuse
            (not (is_trimmed host)
              || has_suffix host (codes ".")
              || is_ip (o.parse_ip host)
              || not (valid_hostname host))
            domain
        accepted d)

  unfoldable pub parse_domain : Ip → Checked (List ℕ)
  unfolding val
  parse_domain ip = check_domain ip (o.lower (val "DOMAIN" ""))

  unfoldable pub parse_host : Checked (List ℕ)
  unfolding val byte_length valid_hostname
  parse_host = do
    let host = val "DEVICE_HOST" ""
    refuse
        (ltb 253 (byte_length host) || (not (is_ip (o.parse_ip host)) && not (valid_hostname host)))
        device_host
    accepted host

  unfoldable pub parse_user : Checked (List ℕ)
  unfolding val is_user
  parse_user = do
    let user = val "DEVICE_USER" "mobile"
    refuse (not (is_user user)) device_user
    accepted user

  unfoldable pub parse_pin : Checked (List ℕ)
  unfolding val byte_length same is_trimmed has_control
  parse_pin = do
    let pin = val "DEVICE_UNLOCK_PIN" ""
    refuse
        (not (same pin []) && (ltb 64 (byte_length pin) || not (is_trimmed pin) || has_control pin))
        unlock_pin
    accepted pin

  unfoldable pub parse_key : Checked Auth
  unfolding val private_file
  parse_key = do
    let path = val "SSH_KEY_PATH" ""
    let phrase = val "SSH_KEY_PASSPHRASE" ""
    refuse (not (private_file path)) ssh_key
    bytes ← or_rejected ssh_key (content_of (o.file path))
    refuse (not (o.is_key bytes phrase)) ssh_key
    accepted (key path phrase)

  unfoldable pub parse_password : Checked Auth
  unfolding val same
  parse_password = do
    let word = val "SSH_PASSWORD" ""
    refuse (same word []) ssh_password
    accepted (password word)

  unfoldable pub parse_auth : Checked Auth
  unfolding val same
  parse_auth =
      if is_text (val "SSH_AUTH" "key") "key"
      then parse_key
      else if is_text (val "SSH_AUTH" "key") "password"
      then parse_password
      else rejected ssh_auth

  unfoldable pub parse_known_hosts : Checked (List ℕ)
  unfolding val private_file split has_entry
  parse_known_hosts = do
    let path = val "KNOWN_HOSTS_PATH" ""
    refuse (not (private_file path)) known_hosts
    known ← or_rejected known_hosts (content_of (o.file path))
    refuse (not (o.are_known_hosts path) || not (has_entry (split b'\n' known))) known_hosts
    accepted path

  abbrev pub is_own_address : List ℕ → Option (List ℕ) → Bool
  is_own_address email none = false
  is_own_address email (some a) = same a email

  unfoldable pub check_email : List ℕ → Checked (List ℕ)
  unfolding val byte_length same
  check_email email =
      if same email []
      then (refuse
            (not (same (val "APPLE_PASSWORD" "") []) || not (same (val "APPLE_MAC_ADDRESS" "") []))
            apple_email
          >> accepted email)
      else (refuse (not (is_own_address email (o.address email)) || ltb 254 (byte_length email))
            apple_email
          >> accepted email)

  unfoldable pub parse_email : Checked (List ℕ)
  unfolding val
  parse_email = check_email (val "APPLE_EMAIL" "")

  unfoldable pub parse_mac : Checked (List ℕ)
  unfolding val same
  parse_mac = if same (val "APPLE_MAC_ADDRESS" "") [] then accepted [] else (do
    m ← or_rejected apple_mac (o.mac (val "APPLE_MAC_ADDRESS" ""))
    refuse (not (nat_eq m.0 6)) apple_mac
    accepted m.1)

  unfoldable pub parse : Checked Config
  unfolding val atoi
  parse = do
    at ← parse_listen
    d ← parse_domain at.1
    dir ← or_rejected data_dir (o.absolute (val "DATA_DIR" "./data"))
    host ← parse_host
    port ← within device_port 1 65535 (atoi (val "DEVICE_PORT" "22"))
    user ← parse_user
    pin ← parse_pin
    auth ← parse_auth
    known ← parse_known_hosts
    email ← parse_email
    mac ← parse_mac
    timeout ← within job_timeout second (24 * 3600 * second) (o.duration (val "JOB_TIMEOUT" "30m"))
    kept ←
        within retention (60 * second) (365 * 24 * 3600 * second)
          (o.duration (val "ARTIFACT_RETENTION" "24h"))
    upload ← within max_upload 1 (8 * 2 ^ 30) (atoi (val "MAX_UPLOAD_BYTES" "2147483648"))
    limit ← within queue_limit 1 1000 (atoi (val "QUEUE_LIMIT" "20"))
    attempts ← within max_attempts 1 5 (atoi (val "MAX_ATTEMPTS" "3"))
    level ← level_of (o.lower (val "LOG_LEVEL" "info"))
    json ← format_of (o.lower (val "LOG_FORMAT" "text"))
    accepted (record {
      listen = at.0;
      domain = d;
      data_dir = dir;
      device_host = host;
      device_port = port;
      device_user = user;
      unlock_pin = pin;
      auth = auth;
      known_hosts = known;
      apple_email = email;
      apple_password = val "APPLE_PASSWORD" "";
      apple_mac = mac;
      job_timeout = timeout;
      retention = kept;
      max_upload = upload;
      queue_limit = limit;
      max_attempts = attempts;
      log_level = level;
      is_json = json;
    })
