-- ===== src/Secrets/Session.antt =====
-- The saved session of the Apple account (internal/secrets/store.go). The account and its JSON are the
-- decryption library's: `decode` reads a text over an account, as `json.Unmarshal` does, `encode` is `json.Marshal`, and `others` are
-- the fields that this service does not touch.
pub mod RoundTrip
use ipa_now.Common.{
  ℕ, String, Bool, true, false, not, ◌||◌, ◌==◌, Option, none, some, List, if◌then◌else◌,
}

pub record Account : Type 0 where
  pub email : String
  pub password : String
  pub mac_address : String
  pub password_token : String
  pub others : List ℕ

-- The fields of `Store`, from the settings
pub record Settings : Type 0 where
  pub email : String
  pub password : String
  pub mac_address : String

-- The file of the session: whether it is a private regular file, and what it holds.
pub record SessionFile (Text : Type 0) : Type 0 where
  pub is_private : Bool
  pub content : Text

pub data Loaded : Type 0 where
  -- `nil, nil`: no account is configured
  unconfigured refused : Loaded
  account : Account → Loaded

abbrev pub configured : Settings → Account
configured s = record {
  email = s.email;
  password = s.password;
  mac_address = s.mac_address;
  password_token = "";
  others = List.[];
}

-- A session of another machine is not used again: its token is dropped.
abbrev pub adopted : Settings → Account → Account
adopted s a = record a {
  password = s.password;
  mac_address = s.mac_address;
  password_token = if a.mac_address == s.mac_address then a.password_token else "";
}

module _ {Text : Type 0} (decode : Account → Text → Option Account) (encode : Account → Text) where
  abbrev pub decoded : Settings → Option Account → Loaded
  decoded s none = refused
  decoded s (some a) = if a.email == s.email then account (adopted s a) else refused

  -- `stat` and `read` say whether `Lstat` and `ReadFile` fail on a file that is there.
  unfoldable pub load : Settings → (stat read : Bool) → Option (SessionFile Text) → Loaded
  load s stat read none =
      if s.email == "" then unconfigured else if stat then refused else account (configured s)
  load s stat read (some f) =
      if s.email == ""
      then unconfigured
      else if stat || not f.is_private || read
      then refused
      else decoded s (decode (configured s) f.content)

  -- What is written: never the password.
  abbrev pub written : Settings → Account → SessionFile Text
  written s a = record {
    is_private = true;
    content = encode (record a { password = ""; mac_address = s.mac_address });
  }

  -- Until the rename, a failure leaves the file as it was. `before` says whether one of the calls up to the
  -- rename fails, and `after` whether the directory cannot be opened or synced.
  unfoldable pub save :
      Settings
      → (before after : Bool) → Account
      → Option (SessionFile Text)
      → Bool × Option (SessionFile Text)
  save s before after a f = if before then (false, f) else (not after, some (written s a))
