-- ===== src/Config/Sound.antt =====
-- What the rest of the service may rely on of settings that `Parse` accepts.
use ipa_now.Common.{
  ℕ, ◌*◌, ◌^◌, ◌%◌, ◌≤◌, ◌≡◌, refl, arith, true, false, not, ◌||◌, some, List, [], member,
  has_suffix, codes, false, ◌⊎◌, inl, inr, same, is_text,
}
use ipa_now.Http.Target.{is_trimmed, byte_length}
use ipa_now.Config.Values.{atoi, valid_hostname, is_user}
use ipa_now.Config.Outside.{Ip, Outside}
use ipa_now.Config.Parse.{
  accepted, Auth, key, password, Config, second, is_reachable, is_ip, val, private_file,
  domain_host, parse_listen, check_domain, parse_domain, parse_host, parse_user, parse_key,
  parse_password, parse_pin, has_control, content_of, is_own_address, parse_auth, parse_known_hosts,
  check_email, parse_email, parse_mac, parse,
}
use ipa_now.Config.Rules.{
  Passes, accepted-Passes, if-Passes, Passes-accepted, bind-Passes, refuse-Passes, option-Passes,
  within-Passes, read-Passes, any-Passes,
}

fits : (n : ℕ) → n ≤ 8589934592 → n * 4 % 2 ^ 64 ≡ n * 4
fits n h = omega arith

module _ (o : Outside) where
  abbrev pub IsPort : List ℕ → Type 0
  IsPort p = (n : ℕ) × (atoi p ≡ some n) × (1 ≤ n) × (n ≤ 65535)

  -- Only this host or its network can connect, if there is no domain.
  pub record Listens (listen domain : List ℕ) : Type 0 where
    pub host : List ℕ
    pub port : List ℕ
    pub ip : Ip
    pub is_split : o.split_host_port listen ≡ some (host, port)
    pub is_address : o.parse_ip host ≡ some ip
    pub is_port : IsPort port
    pub is_local : same domain [] ≡ true → is_reachable ip ≡ true

  -- The host of the domain, which may have a port
  abbrev pub HostOf : (d host : List ℕ) → Type 0
  HostOf d host =
      ((member b':' d ≡ false) × (host ≡ d))
      ⊎ ((port : List ℕ) × (o.split_host_port d ≡ some (host, port)) × IsPort port)

  -- The domain names a host, and no address.
  pub record IsDomain (d : List ℕ) : Type 0 where
    pub host : List ℕ
    pub is_host : HostOf d host
    pub is_name : valid_hostname host ≡ true
    pub is_no_address : is_ip (o.parse_ip host) ≡ false
    pub is_relative : has_suffix host (codes ".") ≡ false
    pub is_bare : is_trimmed host ≡ true

  abbrev pub IsPin : List ℕ → Type 0
  IsPin p = (byte_length p ≤ 64) × (is_trimmed p ≡ true) × (has_control p ≡ false)

  abbrev pub IsHost : List ℕ → Type 0
  IsHost h = (byte_length h ≤ 253) × ((is_ip (o.parse_ip h) || valid_hostname h) ≡ true)

  abbrev pub IsAuth : Auth → Type 0
  IsAuth (key path phrase) =
      (private_file o path ≡ true)
      × ((bytes : List ℕ) × (content_of (o.file path) ≡ some bytes)
          × (o.is_key bytes phrase ≡ true))
  IsAuth (password word) = same word [] ≡ false

  abbrev pub AreKnown : List ℕ → Type 0
  AreKnown p = (private_file o p ≡ true) × (o.are_known_hosts p ≡ true)

  abbrev pub IsEmail : List ℕ → Type 0
  IsEmail e = (is_own_address o e (o.address e) ≡ true) × (byte_length e ≤ 254)

  pub record Sound (c : Config) : Type 0 where
    pub listens : Listens c.listen c.domain
    pub domain : same c.domain [] ≡ false → IsDomain c.domain
    pub unlock_pin : same c.unlock_pin [] ≡ false → IsPin c.unlock_pin
    pub device_host : IsHost c.device_host
    pub device_port : (1 ≤ c.device_port) × (c.device_port ≤ 65535)
    pub device_user : is_user c.device_user ≡ true
    pub auth : IsAuth c.auth
    pub known_hosts : AreKnown c.known_hosts
    pub email : same c.apple_email [] ≡ false → IsEmail c.apple_email
    pub apple :
        same c.apple_email [] ≡ true
        → (same c.apple_password [] ≡ true) × (same c.apple_mac [] ≡ true)
    pub job_timeout : (second ≤ c.job_timeout) × (c.job_timeout ≤ 86400 * second)
    pub retention : (60 * second ≤ c.retention) × (c.retention ≤ 31536000 * second)
    pub max_upload : (1 ≤ c.max_upload) × (c.max_upload ≤ 8589934592)
    pub expands : c.max_upload * 4 % 2 ^ 64 ≡ c.max_upload * 4
    pub queue_limit : (1 ≤ c.queue_limit) × (c.queue_limit ≤ 1000)
    pub max_attempts : (1 ≤ c.max_attempts) × (c.max_attempts ≤ 5)

  abbrev Split : List ℕ × Ip → Type 0
  Split (listen, ip) =
      (host : List ℕ) × (port : List ℕ) × (o.split_host_port listen ≡ some (host, port))
      × IsPort port
      × (o.parse_ip host ≡ some ip)

  listen-Passes : Passes Split (parse_listen o)
  unfolding parse_listen
  listen-Passes = bind-Passes Split _ _ _ (option-Passes _ _) λ hp split.
      bind-Passes Split _ _ _ (read-Passes _ 1 65535 (atoi hp.1)) λ n read.
        bind-Passes Split _ _ _ (option-Passes _ _) λ ip parsed.
          accepted-Passes Split _ (hp.0, hp.1, split, (n, read.0, read.1, read.2), parsed)

  record Reaches (ip : Ip) (d : List ℕ) : Type 0 where
    is_local : same d [] ≡ true → is_reachable ip ≡ true
    is_domain : same d [] ≡ false → IsDomain d

  host-Passes : (d : List ℕ) → Passes (HostOf d) (domain_host o d)
  unfolding domain_host
  host-Passes d =
      if-Passes (HostOf d) (member b':' d) _ _
        (λ e. bind-Passes (HostOf d) _ _ _ (option-Passes _ _) λ hp split.
          bind-Passes (HostOf d) _ _ _ (read-Passes _ 1 65535 (atoi hp.1)) λ n read.
            accepted-Passes (HostOf d) hp.0 (inr (hp.1, split, (n, read.0, read.1, read.2))))
        λ e. accepted-Passes (HostOf d) d (inl (e, refl))

  check_domain-Passes : (ip : Ip) (d : List ℕ) → Passes (Reaches ip) (check_domain o ip d)
  unfolding check_domain
  check_domain-Passes ip d =
      if-Passes (Reaches ip) (same d []) _ _
        (λ e.
          bind-Passes (Reaches ip) _ _ _ (refuse-Passes (not (is_reachable ip)) _) λ u reachable.
            accepted-Passes (Reaches ip) d
              (record { is_local = λ e'. ground arith; is_domain = λ e'. absurd (cc (e, e')) }))
        λ e. bind-Passes (Reaches ip) _ _ _ (host-Passes d) λ host of.
          bind-Passes (Reaches ip) _ _ _ (refuse-Passes _ _) λ u named.
            accepted-Passes (Reaches ip) d (record {
              is_local = λ e'. absurd (cc (e, e'));
              is_domain = λ _. record {
                host = host;
                is_host = of;
                is_name = ground arith;
                is_no_address = ground arith;
                is_relative = ground arith;
                is_bare = ground arith;
              };
            })

  PinIfAny : List ℕ → Type 0
  PinIfAny p = same p [] ≡ false → IsPin p

  pin-Passes : Passes PinIfAny (parse_pin o)
  unfolding parse_pin PinIfAny
  pin-Passes =
      bind-Passes PinIfAny _ _ _ (refuse-Passes _ _)
        λ u e. accepted-Passes PinIfAny _ λ f. (ground arith, ground arith, ground arith)

  IsHost-Passes : Passes IsHost (parse_host o)
  unfolding parse_host
  IsHost-Passes =
      bind-Passes IsHost _ _ _ (refuse-Passes _ _)
        λ u e. accepted-Passes IsHost _ (ground arith, ground arith)

  user-Passes : Passes (λ u. is_user u ≡ true) (parse_user o)
  unfolding parse_user
  user-Passes =
      bind-Passes (λ u. is_user u ≡ true) _ _ _ (refuse-Passes _ _)
        λ u e. accepted-Passes _ _ (ground arith)

  key-Passes : Passes IsAuth (parse_key o)
  unfolding parse_key
  key-Passes =
      bind-Passes IsAuth _ _ _ (refuse-Passes (not (private_file o (val o "SSH_KEY_PATH" ""))) _)
        λ u e.
          bind-Passes IsAuth _ _ _ (option-Passes _ (content_of (o.file (val o "SSH_KEY_PATH" ""))))
            λ bytes read.
              bind-Passes IsAuth _ _ _
                (refuse-Passes (not (o.is_key bytes (val o "SSH_KEY_PASSPHRASE" ""))) _)
                λ v opens. accepted-Passes IsAuth _ (ground arith, (bytes, read, ground arith))

  password-Passes : Passes IsAuth (parse_password o)
  unfolding parse_password
  password-Passes = bind-Passes IsAuth _ _ _ (refuse-Passes _ _) λ u e. accepted-Passes IsAuth _ e

  IsAuth-Passes : Passes IsAuth (parse_auth o)
  unfolding parse_auth Passes
  IsAuth-Passes =
      if-Passes IsAuth (is_text (val o "SSH_AUTH" "key") "key") _ _ (λ e. key-Passes)
        λ e.
          if-Passes IsAuth (is_text (val o "SSH_AUTH" "key") "password") _ _ (λ e'. password-Passes)
            λ e'. tt

  known_hosts-Passes : Passes AreKnown (parse_known_hosts o)
  unfolding parse_known_hosts
  known_hosts-Passes =
      bind-Passes AreKnown _ _ _
        (refuse-Passes (not (private_file o (val o "KNOWN_HOSTS_PATH" ""))) _)
        λ u e. bind-Passes AreKnown _ _ _ (any-Passes _) λ bytes _.
          bind-Passes AreKnown _ _ _ (refuse-Passes _ _)
            λ v f. accepted-Passes AreKnown _ (ground arith, ground arith)

  -- Without an email there is no other setting of an account.
  record Alone (e : List ℕ) : Type 0 where
    alone :
        same e [] ≡ true
        → (same (val o "APPLE_PASSWORD" "") [] ≡ true)
          × (same (val o "APPLE_MAC_ADDRESS" "") [] ≡ true)
    is_email : same e [] ≡ false → IsEmail e

  check_email-Passes : (e : List ℕ) → Passes Alone (check_email o e)
  unfolding check_email
  check_email-Passes e =
      if-Passes Alone (same e []) _ _
        (λ t.
          bind-Passes Alone _ _ _
            (refuse-Passes
              (not (same (val o "APPLE_PASSWORD" "") [])
                || not (same (val o "APPLE_MAC_ADDRESS" "") []))
              _)
            λ u r. accepted-Passes Alone e (record {
              alone = λ t'. (ground arith, ground arith);
              is_email = λ f. absurd (cc (f, t));
            }))
        λ f. bind-Passes Alone _ _ _ (refuse-Passes _ _) λ u r.
          accepted-Passes Alone e (record {
            alone = λ t. absurd (cc (f, t));
            is_email = λ _. (ground arith, ground arith);
          })

  abbrev NoMac : List ℕ → Type 0
  NoMac m = same (val o "APPLE_MAC_ADDRESS" "") [] ≡ true → same m [] ≡ true

  mac-Passes : Passes NoMac (parse_mac o)
  unfolding parse_mac
  mac-Passes =
      if-Passes NoMac (same (val o "APPLE_MAC_ADDRESS" "") []) _ _
        (λ t. accepted-Passes NoMac [] (λ t'. refl))
        λ f. bind-Passes NoMac _ _ _ (any-Passes _) λ m _.
          bind-Passes NoMac _ _ _ (any-Passes _)
            λ u _. accepted-Passes NoMac _ (λ t. absurd (cc (f, t)))

  parse-Passes : Passes Sound (parse o)
  unfolding parse parse_domain parse_email PinIfAny
  parse-Passes = bind-Passes Sound Split _ _ listen-Passes λ at split.
      bind-Passes Sound (Reaches at.1) _ _ (check_domain-Passes at.1 _) λ d reaches.
        bind-Passes Sound _ _ _ (any-Passes _) λ dir _.
          bind-Passes Sound IsHost _ _ IsHost-Passes λ host is_host.
            bind-Passes Sound _ _ _ (within-Passes _ 1 65535 _) λ port in_range.
              bind-Passes Sound _ _ _ user-Passes λ user word.
                bind-Passes Sound PinIfAny _ _ pin-Passes λ pin if_any.
                  bind-Passes Sound IsAuth _ _ IsAuth-Passes λ auth is_auth.
                    bind-Passes Sound _ _ _ known_hosts-Passes λ known are_known.
                      bind-Passes Sound Alone _ _ (check_email-Passes _) λ email of_email.
                        bind-Passes Sound NoMac _ _ mac-Passes λ mac no_mac.
                          bind-Passes Sound _ _ _ (within-Passes _ second (24 * 3600 * second) _)
                            λ timeout t.
                              bind-Passes Sound _ _ _
                                (within-Passes _ (60 * second) (365 * 24 * 3600 * second) _)
                                λ kept k.
                                  bind-Passes Sound _ _ _ (within-Passes _ 1 (8 * 2 ^ 30) _)
                                    λ upload u.
                                      bind-Passes Sound _ _ _ (within-Passes _ 1 1000 _) λ limit l.
                                        bind-Passes Sound _ _ _ (within-Passes _ 1 5 _)
                                          λ attempts a.
                                            bind-Passes Sound _ _ _ (any-Passes _) λ level _.
                                              bind-Passes Sound _ _ _ (any-Passes _) λ json _.
                                                accepted-Passes Sound _ (record {
                                                  listens = listening at d split reaches;
                                                  domain = reaches.is_domain;
                                                  unlock_pin = if_any;
                                                  device_host = is_host;
                                                  device_port = in_range;
                                                  device_user = word;
                                                  auth = is_auth;
                                                  known_hosts = are_known;
                                                  email = of_email.is_email;
                                                  apple = λ e.
                                                      let (x, y) = of_email.alone e in
                                                      (x, no_mac y);
                                                  job_timeout = t;
                                                  retention = k;
                                                  max_upload = u;
                                                  expands = fits upload u.1;
                                                  queue_limit = l;
                                                  max_attempts = a;
                                                })
    where
      listening : (at : List ℕ × Ip) (d : List ℕ) → Split at → Reaches at.1 d → Listens at.0 d
      listening (at, ip) d (host, port, split, is_port, parsed) reaches = record {
        host = host;
        port = port;
        ip = ip;
        is_split = split;
        is_address = parsed;
        is_port = is_port;
        is_local = reaches.is_local;
      }

  -- Settings that are accepted are sound: the ports to listen on, of the device and of the domain, the
  -- durations, the limits and the number of attempts are within their bounds, and four times the upload limit fits in
  -- 64 bits; the service listens on an address, of this host or its network unless it has a domain, which is a host
  -- name then and no address; the host and the user of the device, a PIN and an email are well-formed, the key opens,
  -- the key and the known hosts are private files; and without an email there is no other setting of an account.
  pub parse-Sound : (c : Config) → parse o ≡ accepted c → Sound c
  parse-Sound c e = Passes-accepted Sound (parse o) c parse-Passes e
