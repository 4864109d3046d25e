-- ===== src/Config/Outside.antt =====
-- What the checks of the settings ask of the environment, the file system and the libraries.
use ipa_now.Common.{ℕ, String, Bool, Option, List}

pub record Ip : Type 0 where
  pub is_loopback : Bool
  pub is_private : Bool

-- A path that `Lstat` finds: `mode` are the permission bits, and `content` is what is read, if it can be opened.
pub record File : Type 0 where
  pub is_regular : Bool
  pub mode : ℕ
  pub content : Option (List ℕ)

-- `get` is `os.Getenv`. Then, in this order: `net.SplitHostPort`, `net.ParseIP`, `strings.ToLower`,
-- `filepath.Abs`, `filepath.IsAbs`, `time.ParseDuration` in nanoseconds (of one below zero it is zero), the
-- address that `mail.ParseAddress` finds, the bytes and the text of `net.ParseMAC` after `strings.TrimSpace`,
-- `os.Lstat` with what it finds, `ssh.ParsePrivateKey` under a passphrase that may be empty, and
-- `knownhosts.New`.
pub record Outside : Type 0 where
  pub get : String → List ℕ
  pub split_host_port : List ℕ → Option (List ℕ × List ℕ)
  pub parse_ip : List ℕ → Option Ip
  pub lower : List ℕ → List ℕ
  pub absolute : List ℕ → Option (List ℕ)
  pub is_absolute : List ℕ → Bool
  pub duration : List ℕ → Option ℕ
  pub address : List ℕ → Option (List ℕ)
  pub mac : List ℕ → Option (ℕ × List ℕ)
  pub file : List ℕ → Option File
  pub is_key : List ℕ → List ℕ → Bool
  pub are_known_hosts : List ℕ → Bool
