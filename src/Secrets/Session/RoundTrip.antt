-- ===== src/Secrets/Session/RoundTrip.antt =====
-- A session that is saved is loaded again (internal/secrets/store.go).
use ipa_now.Common.{
  ◌≡◌, refl, sym, arith, Bool, true, false, ◌==◌, eq_iff, Option, some, if◌then◌else◌,
}
use ipa_now.Secrets.Session.{
  Account, Settings, SessionFile, account, configured, decoded, load, save,
}

-- What JSON keeps of an account whose password is empty, when it is read over one that has the same
-- email and machine, and no token
pub record Rereads {Text : Type 0} (decode : Account → Text → Option Account)
    (encode : Account → Text) (a b : Account) : Type 0 where
  pub again : Account
  pub is_read : decode a (encode b) ≡ some again
  pub same_email : again.email ≡ b.email
  pub same_machine : again.mac_address ≡ b.mac_address
  pub same_token : again.password_token ≡ b.password_token
  pub same_others : again.others ≡ b.others

module _ {Text : Type 0} (decode : Account → Text → Option Account) (encode : Account → Text)
    (json : (a b : Account)
      → a.email ≡ b.email
      → a.mac_address ≡ b.mac_address
      → a.password_token ≡ ""
      → b.password ≡ ""
      → Rereads decode encode a b) where
  -- If JSON keeps the fields of an account, then an account with the configured email, once it is saved
  -- without a failure, is loaded from a file that can be read with its token and its other fields, and with the configured password and machine.
  pub load-save :
      (s : Settings) (before after : Bool) (a : Account) (f : Option (SessionFile Text))
      → (s.email == "") ≡ false
      → a.email ≡ s.email
      → (save decode encode s before after a f).0 ≡ true
      → load decode encode s false false (save decode encode s before after a f).1
        ≡ account (record a { password = s.password; mac_address = s.mac_address })
  unfolding load save
  load-save s true after a f n e done = cc
  load-save s false after a f n e done =
      let b : Account = record a { password = ""; mac_address = s.mac_address } in
      let r = json (configured s) b (sym e) refl refl refl in
      rw (n, if◌then◌else◌)
        (rw (r.is_read) (loaded r.again r.same_email r.same_machine r.same_token r.same_others))
    where
      loaded :
          (c : Account)
          → c.email ≡ a.email
          → c.mac_address ≡ s.mac_address
          → c.password_token ≡ a.password_token
          → c.others ≡ a.others
          → decoded decode encode s (some c)
            ≡ account (record a { password = s.password; mac_address = s.mac_address })
      loaded c e1 e2 e3 e4 =
          ground (arith, eq_iff c.email s.email, eq_iff c.mac_address s.mac_address)
